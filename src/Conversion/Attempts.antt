-- ===== src/Conversion/Attempts.antt =====
-- proxy/conversion.py: which endpoints are attempted, and in which order.
use llm_plug.Common.{
  ℕ, suc, ◌≤◌, Bool, true, false, List, [], ◌∷◌, ◌++◌, if◌then◌else◌, not, leb, keep, Has, Has-keep,
  keep-Has, All, All-weaken, ◌≡◌, refl, sym, subst, ◌↔◌, ◌⊎◌, inl, inr, Bool-cases, if_both,
}
use llm_plug.Channel.{ApiType, openai_chat, openai_response, anthropic, Endpoint, Channel}
use llm_plug.Config.{Settings}
use llm_plug.Conversion.{
  same_type, by_priority, conversion_allowed, insert_by_priority, sort_by_priority, is_native,
  order_attempts, resolve_endpoint_attempts,
}

insert-Has :
    (ep x : Endpoint) (eps : List Endpoint) → Has ep (insert_by_priority x eps) ↔ Has ep (x ∷ eps)
unfolding insert_by_priority
insert-Has ep x [] = (λ m. m, λ m. m)
insert-Has ep x (y ∷ eps) =
    let ih = insert-Has ep x eps in
    if_both (λ l. Has ep l ↔ Has ep (x ∷ y ∷ eps))
      (leb (by_priority x.api_type) (by_priority y.api_type)) (λ m. m, λ m. m)
      (
        λ m. elim m [
          | inl e ↦ inr (inl e)
          | inr n ↦ elim (ih.0 n) [ inl e ↦ inl e | inr r ↦ inr (inr r) ]
        ],
        λ m. elim m [
          | inl e ↦ inr (ih.1 (inl e))
          | inr (inl e) ↦ inl e
          | inr (inr r) ↦ inr (ih.1 (inr r))
        ],
      )

sort-Has : (ep : Endpoint) (eps : List Endpoint) → Has ep (sort_by_priority eps) ↔ Has ep eps
unfolding sort_by_priority
sort-Has ep [] = (λ m. m, λ m. m)
sort-Has ep (x ∷ eps) =
    let (there, back) = insert-Has ep x (sort_by_priority eps) in
    let (forth, home) = sort-Has ep eps in
    (
      λ m. elim (there m) [ inl e ↦ inl e | inr r ↦ inr (forth r) ],
      λ m. back (elim m [ inl e ↦ inl e | inr r ↦ inr (home r) ]),
    )

append-Has : (ep : Endpoint) (xs ys : List Endpoint) → Has ep (xs ++ ys) ↔ (Has ep xs ⊎ Has ep ys)
append-Has ep [] ys = (λ m. inr m, λ m. elim m [ inl n ↦ absurd n | inr n ↦ n ])
append-Has ep (x ∷ xs) ys =
    let (there, back) = append-Has ep xs ys in
    (
      λ m. elim m [
        | inl e ↦ inl (inl e)
        | inr n ↦ elim (there n) [ inl a ↦ inl (inr a) | inr b ↦ inr b ]
      ],
      λ m. elim m [
        | inl (inl e) ↦ inl e
        | inl (inr a) ↦ inr (back (inl a))
        | inr b ↦ inr (back (inr b))
      ],
    )

-- An endpoint may be attempted: it is of the inbound format, or conversion is allowed.
abbrev pub Servable : Bool → ApiType → Endpoint → Type 0
Servable allowed target ep = (is_native target ep ≡ true) ⊎ (allowed ≡ true)

order-Has :
    (allowed : Bool) (target : ApiType) (ep : Endpoint) (native candidates : List Endpoint)
    → native ≡ keep (is_native target) candidates
    → Has ep (order_attempts allowed target native candidates)
      ↔ (Has ep candidates × Servable allowed target ep)
unfolding order_attempts
order-Has true target ep [] candidates e =
    (λ m. ((sort-Has ep candidates).0 m, inr refl), λ m. (sort-Has ep candidates).1 m.0)
order-Has false target ep [] candidates e = (
  λ m. absurd m,
  λ m. elim m.1 [
    | inl n ↦ subst (Has ep) (sym e) (keep-Has ep (is_native target) candidates m.0 n)
    | inr f ↦ cc
  ],
)
order-Has false target ep (x ∷ native) candidates e = (
  λ m.
      let (member, n) = Has-keep ep (is_native target) candidates (subst (Has ep) e m) in
      (member, inl n),
  λ m. elim m.1 [
    | inl n ↦ subst (Has ep) (sym e) (keep-Has ep (is_native target) candidates m.0 n)
    | inr f ↦ cc
  ],
)
order-Has true target ep (x ∷ native) candidates e =
    let others = keep (λ c. not (is_native target c)) candidates in
    let (there, back) = append-Has ep (x ∷ native) (sort_by_priority others) in
    (
      λ m. elim (there m) [
        | inl n ↦
            let (member, t) = Has-keep ep (is_native target) candidates (subst (Has ep) e n) in
            (member, inr refl)
        | inr n ↦ (
          (Has-keep ep (λ c. not (is_native target c)) candidates ((sort-Has ep others).0 n)).0,
          inr refl,
        )
      ],
      λ m. elim (Bool-cases (is_native target ep)) [
        | inl b ↦
            back (inl (subst (Has ep) (sym e) (keep-Has ep (is_native target) candidates m.0 b)))
        | inr b ↦ back (
            inr (
              (sort-Has ep others).1
                (keep-Has ep (λ c. not (is_native target c)) candidates m.0 (rw b refl))))
      ],
    )

-- The endpoints that are attempted are exactly the channel's enabled ones that are of the inbound
-- format or, where conversion is allowed, of any.
pub resolve_endpoint_attempts_iff :
    (settings : Settings) (ch : Channel) (target : ApiType) (ep : Endpoint)
    → Has ep (resolve_endpoint_attempts settings ch target) ↔ (
        Has ep ch.endpoints
        × (ep.enabled ≡ true)
        × Servable (conversion_allowed settings ch) target ep)
unfolding resolve_endpoint_attempts
resolve_endpoint_attempts_iff settings ch target ep =
    let candidates = keep (λ c. c.enabled) ch.endpoints in
    let (there, back) =
      order-Has (conversion_allowed settings ch) target ep (keep (is_native target) candidates)
        candidates refl in
    (
      λ m.
          let (member, s) = there m in
          let (own, enabled) = Has-keep ep (λ c. c.enabled) ch.endpoints member in
          (own, enabled, s),
      λ m. back (keep-Has ep (λ c. c.enabled) ch.endpoints m.0 m.1, m.2),
    )

-- The place of a format in the order: the inbound one first, then chat completions, Anthropic and
-- Responses.
pub place : (target format : ApiType) → ℕ
place openai_chat openai_chat = 0
place openai_chat anthropic = 2
place openai_chat openai_response = 3
place anthropic anthropic = 0
place anthropic openai_chat = 1
place anthropic openai_response = 3
place openai_response openai_response = 0
place openai_response openai_chat = 1
place openai_response anthropic = 2

-- The same, in terms of the priority.
unfoldable pub rank : ApiType → Endpoint → ℕ
rank target ep = if is_native target ep then 0 else suc (by_priority ep.api_type)

pub rank-place : (target : ApiType) (ep : Endpoint) → rank target ep ≡ place target ep.api_type
unfolding rank place same_type by_priority
rank-place target ep = table target ep.api_type
  where
    table :
        (target format : ApiType)
        → (if same_type format target then 0 else suc (by_priority format)) ≡ place target format
    table openai_chat openai_chat = refl
    table openai_chat anthropic = refl
    table openai_chat openai_response = refl
    table anthropic anthropic = refl
    table anthropic openai_chat = refl
    table anthropic openai_response = refl
    table openai_response openai_response = refl
    table openai_response openai_chat = refl
    table openai_response anthropic = refl

abbrev pub IsSorted : (Endpoint → ℕ) → List Endpoint → Type 0
IsSorted f [] = Unit
IsSorted f (ep ∷ eps) = All (λ e. f ep ≤ f e) eps × IsSorted f eps

pub IsSorted-same :
    (f g : Endpoint → ℕ) (eps : List Endpoint)
    → ((e : Endpoint) → f e ≡ g e)
    → IsSorted f eps
    → IsSorted g eps
IsSorted-same f g [] same h = tt
IsSorted-same f g (x ∷ eps) same h = (
  All-weaken (λ e. f x ≤ f e) (λ e. g x ≤ g e) eps (λ e l. rw (sym (same x), sym (same e)) l) h.0,
  IsSorted-same f g eps same h.1,
)
