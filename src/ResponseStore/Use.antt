-- ===== src/ResponseStore/Use.antt =====
-- state_store.py: when a file was last used.
use llm_plug.Common.{
  ℕ, zero, suc, ◌≤◌, ◌<◌, ◌⊎◌, true, not, if◌then◌else◌, nat_eq, ◌==◌, Option, none, some, ◌≡◌,
  refl, arith,
}
use llm_plug.ResponseStore.{Entry, key_le, key_of, access_time}

-- When a file was last used: the first of these three instants that is not zero.
pub used : (last_access_at created_at mtime : ℕ) → ℕ
used (suc last_access_at) created_at mtime = suc last_access_at
used zero (suc created_at) mtime = suc created_at
used zero zero mtime = mtime

access_time-used :
    (l c m : ℕ) → (if not (l == 0) then l else if not (c == 0) then c else m) ≡ used l c m
unfolding used
access_time-used zero zero m = refl
access_time-used zero (suc c) m = ground arith
access_time-used (suc l) c m = ground arith

key_le-order : (a m b n : ℕ) → key_le (some a, m) (some b, n) ≡ true → (a < b) ⊎ (a ≡ b) × (m ≤ n)
unfolding key_le
key_le-order a m b n h = ground arith

module _ {P : Type 0} where
  -- The first file was used before the second, or at the same instant and written no later.
  abbrev pub IsEarlier : Option (Entry P) → ℕ → Option (Entry P) → ℕ → Type 0
  IsEarlier none m none n = Unit
  IsEarlier none m (some e) n = Unit
  IsEarlier (some d) m none n = ⊥
  IsEarlier (some d) m (some e) n =
      (used d.last_access_at d.created_at m < used e.last_access_at e.created_at n)
      ⊎ (used d.last_access_at d.created_at m ≡ used e.last_access_at e.created_at n) × (m ≤ n)

  pub before-IsEarlier :
      (d : Option (Entry P)) (m : ℕ) (e : Option (Entry P)) (n : ℕ)
      → key_le (key_of d m) (key_of e n) ≡ true
      → IsEarlier d m e n
  unfolding key_le key_of access_time
  before-IsEarlier none m none n h = tt
  before-IsEarlier none m (some e) n h = tt
  before-IsEarlier (some d) m none n h = cc
  before-IsEarlier (some d) m (some e) n h =
      let a = access_time-used d.last_access_at d.created_at m in
      let b = access_time-used e.last_access_at e.created_at n in
      key_le-order (used d.last_access_at d.created_at m) m (used e.last_access_at e.created_at n) n
        (rw (a, b) at h)
