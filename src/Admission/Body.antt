-- ===== src/Admission/Body.antt =====
-- middleware/common.py and middleware/body_buffer_middleware.py: reading the body of a request, with
-- a bound on its size. The messages of a request are the chunks of its body.
use llm_plug.Common.{
  ℕ, ◌≤◌, ◌<◌, Option, none, some, List, [], ◌∷◌, ◌++◌, ◌⊎◌, inl, inr, ltb, if◌then◌else◌, length,
  ◌≡◌, sym, arith, ap, subst, ltb→lt, Bool-cases,
}
use llm_plug.Text.{Text, append_nil}
use mathlib.Core.List.{append_assoc}

-- The `content-length` that the request declares, if it is a number, and what it sends.
pub record Incoming : Type 0 where
  pub content_length : Option ℕ
  pub chunks : List Text

-- while more_body
unfoldable pub collect : ℕ → Text → List Text → Option Text
collect max_size body [] = some body
collect max_size body (chunk ∷ chunks) =
    let read = body ++ chunk in
    let rest = collect max_size read chunks in if ltb max_size (length read) then none else rest

unfoldable pub declared : Option ℕ → ℕ
declared none = 0
declared (some n) = n

-- None stands for the answer 413.
unfoldable pub read_and_buffer_body : ℕ → Incoming → Option Text
unfolding collect declared
read_and_buffer_body max_size r =
    if ltb max_size (declared r.content_length) then none else collect max_size [] r.chunks

unfoldable pub join : List Text → Text
join [] = []
join (chunk ∷ chunks) = chunk ++ join chunks

-- The body that is read is what was sent, or what was declared or sent is too large.
abbrev pub IsRead : ℕ → Incoming → Option Text → Type 0
IsRead max_size r none =
    (max_size < declared r.content_length) ⊎ (max_size < length (join r.chunks))
IsRead max_size r (some body) = (body ≡ join r.chunks) × (length body ≤ max_size)

length-append_le : (s t : Text) → length s ≤ length (s ++ t)
length-append_le [] t = omega arith
length-append_le (c ∷ s) t = omega (arith, length-append_le s t)

Collected : ℕ → Text → Option Text → Type 0
Collected max_size whole none = max_size < length whole
Collected max_size whole (some body) = (body ≡ whole) × (length body ≤ max_size)

collect-Collected :
    (max_size : ℕ) (body : Text) (chunks : List Text)
    → length body ≤ max_size
    → Collected max_size (body ++ join chunks) (collect max_size body chunks)
unfolding collect Collected join
collect-Collected max_size body [] h = (sym (append_nil body), h)
collect-Collected max_size body (chunk ∷ chunks) h =
    let read = body ++ chunk in
    let whole = append_assoc body chunk (join chunks) in
    elim (Bool-cases (ltb max_size (length read))) [
      | inl b ↦ rw b (
          omega (
            arith,
            ltb→lt max_size (length read) b,
            length-append_le read (join chunks),
            ap length whole,
          ))
      | inr b ↦ rw b (
          subst (λ t. Collected max_size t (collect max_size read chunks)) whole
            (collect-Collected max_size read chunks (ground arith)))
    ]

Collected-IsRead :
    (max_size : ℕ) (r : Incoming) (o : Option Text)
    → Collected max_size (join r.chunks) o
    → IsRead max_size r o
unfolding Collected
Collected-IsRead max_size r none h = inr h
Collected-IsRead max_size r (some body) h = h

pub read_and_buffer_body-IsRead :
    (max_size : ℕ) (r : Incoming) → IsRead max_size r (read_and_buffer_body max_size r)
unfolding read_and_buffer_body
read_and_buffer_body-IsRead max_size r =
    elim (Bool-cases (ltb max_size (declared r.content_length))) [
      | inl b ↦ rw b (inl (ltb→lt max_size (declared r.content_length) b))
      | inr b ↦ rw b (
          Collected-IsRead max_size r (collect max_size [] r.chunks)
            (collect-Collected max_size [] r.chunks (omega arith)))
    ]
