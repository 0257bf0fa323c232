-- ===== src/Tests/StoreTests.antt =====
-- state_store.py: the theorems at concrete inputs.
use llm_plug.Common.{ℕ, true, none, some, [], ◌∷◌, ◌≡◌, refl}
use llm_plug.Dict.{keys, put}
use llm_plug.Text.{codes, same_text}
use llm_plug.ResponseStore.{
  whole_seconds, Entry, FileStore, evict_lru, victims, put_entry, get_response,
}
use llm_plug.ResponseStore.Lru
use llm_plug.ResponseStore.Lru.{IsLru}
use llm_plug.ResponseStore.Lookup

abbrev entry_at : ℕ → Entry ℕ
entry_at n = record {
  conversation = n;
  response = n;
  created_at = n;
  expires_at = 90000;
  last_access_at = n;
}

-- Three files, of which one is no JSON.
abbrev store : FileStore ℕ
store = record {
  files =
      (codes "a", record { entry = some (entry_at 2000); mtime = 2 })
      ∷ (codes "b", record { entry = none; mtime = 9 })
      ∷ (codes "c", record { entry = some (entry_at 1000); mtime = 3 })
      ∷ [];
  max_entries = 1;
  ttl = 60000;
}

least_used : keys (evict_lru (λ id. true) store).files ≡ codes "a" ∷ []
unfolding evict_lru
least_used = refl

evict_lru-IsLru_example : IsLru store.files (evict_lru (λ id. true) store).files (victims store) 1
evict_lru-IsLru_example = Lru.evict_lru-IsLru (λ id. true) store (λ id. refl)

abbrev stored : FileStore ℕ
stored = record store {
  files =
      (
        codes "a",
        record {
          entry = some (record {
            conversation = 7;
            response = 8;
            created_at = 5000;
            expires_at = 65000;
            last_access_at = 5000;
          });
          mtime = 5400;
        },
      )
      ∷ (codes "b", record { entry = none; mtime = 9 })
      ∷ (codes "c", record { entry = some (entry_at 1000); mtime = 3 })
      ∷ [];
}

get_response-put_entry_example : (get_response true 65000 (codes "a") stored).0 ≡ some 8
unfolding put_entry whole_seconds put same_text
get_response-put_entry_example =
    Lookup.get_response-put_entry true 5400 65000 (codes "a") 7 8 store stored refl
