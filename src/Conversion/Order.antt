-- ===== src/Conversion/Order.antt =====
-- proxy/conversion.py: the order of the attempts; every conversion that may be needed exists.
use llm_plug.Common.{
  ℕ, ◌≤◌, Bool, true, false, Option, none, some, List, [], ◌∷◌, ◌++◌, if◌then◌else◌, not, leb, keep,
  All, All-weaken, ◌≡◌, refl, arith, inl, inr, Bool-cases, if_both,
}
use llm_plug.Channel.{ApiType, openai_chat, openai_response, anthropic, Endpoint, Channel}
use llm_plug.Config.{Settings}
use llm_plug.Conversion.{
  same_type, by_priority, conversion_allowed, insert_by_priority, sort_by_priority, is_native,
  order_attempts, resolve_endpoint_attempts, Converter, to_chat, to_response, to_anthropic,
  converter_map, get_converter_for_endpoint,
}
use llm_plug.Conversion.Attempts.{place, rank-place, IsSorted-same, rank, IsSorted}

abbrev priority : Endpoint → ℕ
priority ep = by_priority ep.api_type

insert-All :
    (P : Endpoint → Type 0) (x : Endpoint) (eps : List Endpoint)
    → P x
    → All P eps
    → All P (insert_by_priority x eps)
unfolding insert_by_priority
insert-All P x [] p h = (p, tt)
insert-All P x (y ∷ eps) p h =
    if_both (All P) (leb (priority x) (priority y)) (p, h) (h.0, insert-All P x eps p h.1)

sort-All : (P : Endpoint → Type 0) (eps : List Endpoint) → All P eps → All P (sort_by_priority eps)
unfolding sort_by_priority
sort-All P [] h = tt
sort-All P (x ∷ eps) h = insert-All P x (sort_by_priority eps) h.0 (sort-All P eps h.1)

insert-IsSorted :
    (x : Endpoint) (eps : List Endpoint)
    → IsSorted priority eps
    → IsSorted priority (insert_by_priority x eps)
unfolding insert_by_priority
insert-IsSorted x [] h = (tt, tt)
insert-IsSorted x (y ∷ eps) h = elim (Bool-cases (leb (priority x) (priority y))) [
  | inl b ↦
      let le : priority x ≤ priority y = ground arith in
      rw b ((le, All-weaken _ (λ e. priority x ≤ priority e) eps (λ e g. omega arith) h.0), h)
  | inr b ↦ rw b (
    insert-All (λ e. priority y ≤ priority e) x eps (ground arith) h.0,
    insert-IsSorted x eps h.1,
  )
]

sort-IsSorted : (eps : List Endpoint) → IsSorted priority (sort_by_priority eps)
unfolding sort_by_priority
sort-IsSorted [] = tt
sort-IsSorted (x ∷ eps) = insert-IsSorted x (sort_by_priority eps) (sort-IsSorted eps)

rank-All :
    (target : ApiType) (x : Endpoint) (eps : List Endpoint)
    → is_native target x ≡ false
    → All (λ e. priority x ≤ priority e) eps
    → All (λ e. is_native target e ≡ false) eps
    → All (λ e. rank target x ≤ rank target e) eps
unfolding rank
rank-All target x [] other h n = tt
rank-All target x (y ∷ eps) other h n =
    let le = h.0 in (rw (other, n.0) (omega arith), rank-All target x eps other h.1 n.1)

-- Away from the native endpoints the rank is the priority plus one.
rank-IsSorted :
    (target : ApiType) (eps : List Endpoint)
    → IsSorted priority eps
    → All (λ e. is_native target e ≡ false) eps
    → IsSorted (rank target) eps
rank-IsSorted target [] h n = tt
rank-IsSorted target (x ∷ eps) h n =
    (rank-All target x eps n.0 h.0 n.1, rank-IsSorted target eps h.1 n.1)

native-All :
    (target : ApiType) (x : Endpoint) (eps : List Endpoint)
    → is_native target x ≡ true
    → All (λ e. rank target x ≤ rank target e) eps
unfolding rank
native-All target x [] own = tt
native-All target x (y ∷ eps) own = (rw own (omega arith), native-All target x eps own)

native-IsSorted :
    (target : ApiType) (eps tail : List Endpoint)
    → All (λ e. is_native target e ≡ true) eps
    → IsSorted (rank target) tail
    → IsSorted (rank target) (eps ++ tail)
native-IsSorted target [] tail n h = h
native-IsSorted target (x ∷ eps) tail n h =
    (native-All target x (eps ++ tail) n.0, native-IsSorted target eps tail n.1 h)

only-IsSorted :
    (target : ApiType) (eps : List Endpoint)
    → All (λ e. is_native target e ≡ true) eps
    → IsSorted (rank target) eps
only-IsSorted target [] n = tt
only-IsSorted target (x ∷ eps) n = (native-All target x eps n.0, only-IsSorted target eps n.1)

keep-All : (p : Endpoint → Bool) (eps : List Endpoint) → All (λ e. p e ≡ true) (keep p eps)
keep-All p [] = tt
keep-All p (x ∷ eps) = elim (Bool-cases (p x)) [
  | inl b ↦ rw b (b, keep-All p eps)
  | inr b ↦ rw b (keep-All p eps)
]

keep-none :
    (p : Endpoint → Bool) (eps : List Endpoint) → keep p eps ≡ [] → All (λ e. p e ≡ false) eps
keep-none p [] h = tt
keep-none p (x ∷ eps) h = elim (Bool-cases (p x)) [
  | inl b ↦ let some_kept = rw b at h in cc
  | inr b ↦ (b, keep-none p eps (rw b at h))
]

order-IsSorted :
    (allowed : Bool) (target : ApiType) (native candidates : List Endpoint)
    → All (λ e. is_native target e ≡ true) native
    → (native ≡ [] → All (λ e. is_native target e ≡ false) candidates)
    → IsSorted (rank target) (order_attempts allowed target native candidates)
unfolding order_attempts
order-IsSorted true target [] candidates n h =
    rank-IsSorted target (sort_by_priority candidates) (sort-IsSorted candidates)
      (sort-All (λ e. is_native target e ≡ false) candidates (h refl))
order-IsSorted false target [] candidates n h = tt
order-IsSorted true target (x ∷ native) candidates n h =
    let others = keep (λ c. not (is_native target c)) candidates in
    let foreign : All (λ e. is_native target e ≡ false) others =
      All-weaken (λ e. not (is_native target e) ≡ true) _ others (λ e t. ground arith)
        (keep-All (λ c. not (is_native target c)) candidates) in
    native-IsSorted target (x ∷ native) (sort_by_priority others) n (
      rank-IsSorted target (sort_by_priority others) (sort-IsSorted others)
        (sort-All (λ e. is_native target e ≡ false) others foreign))
order-IsSorted false target (x ∷ native) candidates n h = only-IsSorted target (x ∷ native) n

-- The attempts come in an order: the endpoints of the inbound format first, then those
-- of chat completions, those of Anthropic and those of Responses.
pub resolve_endpoint_attempts-IsSorted :
    (settings : Settings) (ch : Channel) (target : ApiType)
    → IsSorted (λ ep. place target ep.api_type) (resolve_endpoint_attempts settings ch target)
unfolding resolve_endpoint_attempts
resolve_endpoint_attempts-IsSorted settings ch target =
    let candidates = keep (λ ep. ep.enabled) ch.endpoints in
    IsSorted-same (rank target) (λ ep. place target ep.api_type)
      (resolve_endpoint_attempts settings ch target) (rank-place target)
      (order-IsSorted (conversion_allowed settings ch) target (keep (is_native target) candidates)
        candidates (keep-All (is_native target) candidates)
        (λ e. keep-none (is_native target) candidates e))

-- Every upstream format that differs from the inbound one has its converters: a request converter
-- to the upstream format and a response converter to the inbound one.
abbrev pub converter_to : ApiType → Converter
converter_to openai_chat = to_chat
converter_to openai_response = to_response
converter_to anthropic = to_anthropic

pub get_converter_for_endpoint_lem :
    (endpoint : Endpoint) (target : ApiType)
    → get_converter_for_endpoint endpoint target
      ≡ some (
        if same_type endpoint.api_type target
            then none
            else some (converter_to endpoint.api_type, converter_to target),
        endpoint.api_type,
      )
unfolding get_converter_for_endpoint same_type converter_map
get_converter_for_endpoint_lem endpoint target = lookup endpoint.api_type target
  where
    lookup :
        (source target : ApiType)
        → (if same_type source target
            then some (none, source)
            else elim (converter_map source target)
                as (λ _. Option (Option (Converter × Converter) × ApiType)) [
                  | none ↦ none
                  | some converters ↦ some (some converters, source)
                ])
          ≡ some (
            if same_type source target
                then none
                else some (converter_to source, converter_to target),
            source,
          )
    lookup openai_chat openai_chat = refl
    lookup openai_chat openai_response = refl
    lookup openai_chat anthropic = refl
    lookup openai_response openai_chat = refl
    lookup openai_response openai_response = refl
    lookup openai_response anthropic = refl
    lookup anthropic openai_chat = refl
    lookup anthropic openai_response = refl
    lookup anthropic anthropic = refl
