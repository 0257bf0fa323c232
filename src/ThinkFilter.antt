-- ===== src/ThinkFilter.antt =====
-- think_filter.py: the streaming filter of the blocks in which a model thinks.
pub mod Bounds
pub mod Find
pub mod HoldBack
pub mod Inside
pub mod Outside
pub mod Partial
pub mod Pass
pub mod Scan
pub mod Chunks
pub mod Cuts
pub mod Visible
use llm_plug.Text.{Text, codes, take, drop, starts_with, same_text, ends_with, put_before, find}
use llm_plug.Common.{
  ℕ, zero, suc, ◌+◌, ◌-◌, ◌*◌, String, Bool, true, false, ◌&&◌, Option, none, some, List, [], ◌∷◌,
  ◌++◌, nat_eq, ◌==◌, ltb, if◌then◌else◌, length, max, ◌≡◌,
}

abbrev pub think_start : Text
think_start = codes "<think>"

abbrev pub think_end : Text
think_end = codes "</think>"

-- The emoji stands for the start and for the end of a block.
abbrev pub thought : Text
thought = 128173 ∷ []

abbrev pub max_unclosed_think_buffer : ℕ
max_unclosed_think_buffer = 1024 * 1024

-- min(candidates)
unfoldable pub nearer : Option (Text × Text) → Option (Text × Text) → Option (Text × Text)
nearer none q = q
nearer (some p) none = some p
nearer (some p) (some q) = if ltb (length q.0) (length p.0) then some q else some p

unfoldable pub find_start_tag : Text → Option (Text × Text)
unfolding find nearer
find_start_tag t = nearer (find think_start t) (find thought t)

-- The longest prefix of a tag, of `n` code points at most, that the text ends with.
unfoldable pub partial_tag_len : Text → Text → ℕ → ℕ
unfolding ends_with take
partial_tag_len tag t zero = 0
partial_tag_len tag t (suc n) =
    let max_len = partial_tag_len tag t n in
    if ends_with (take (suc n) tag) t then max max_len (suc n) else max_len

unfoldable pub partial_start_tag_len : Text → ℕ
unfolding partial_tag_len
partial_start_tag_len t =
    max (partial_tag_len think_start t (length think_start - 1))
      (partial_tag_len thought t (length thought - 1))

unfoldable pub get_start_tag : Text → Text
unfolding starts_with take
get_start_tag t =
    if starts_with think_start t
    then think_start
    else if starts_with thought t
    then thought
    else take 1 t

-- The text after the end tag, the start tag given.
unfoldable pub after_tag : ℕ → Option (Text × Text) → Option Text
unfolding drop
after_tag n none = none
after_tag n (some (before, found)) = some (drop n found)

unfoldable pub find_end_tag : Text → Text → Option Text
unfolding find after_tag same_text
find_end_tag start_tag t =
    if same_text start_tag think_start
    then after_tag 8 (find think_end t)
    else if same_text start_tag thought
    then after_tag 1 (find thought t)
    else none

pub record ThinkFilter : Type 0 where
  pub buffer : Text
  pub in_think : Bool
  pub think_start_tag : Text

abbrev pub new_filter : ThinkFilter
new_filter = record { buffer = []; in_think = false; think_start_tag = [] }

-- What is retained of a block that has no end yet.
unfoldable pub pending : Text → Text → Text
unfolding drop same_text
pending start_tag rest =
    if ltb max_unclosed_think_buffer (length rest)
    then if same_text start_tag think_start
      then drop (length rest - (length think_end - 1)) rest
      else []
    else rest

-- The end of a `feed` that finds no start tag in `rest`, the end of the buffer.
unfoldable pub hold_back : ThinkFilter → Text → ThinkFilter × Text
unfolding partial_start_tag_len take drop
hold_back self rest =
    let safe_len = length self.buffer - partial_start_tag_len self.buffer in
    let i = length self.buffer - length rest in
    if ltb i safe_len
    then (record self { buffer = drop safe_len self.buffer }, take (safe_len - i) rest)
    else (self, [])

abbrev pub emit : Text → ThinkFilter × Text → ThinkFilter × Text
emit part (self, out) = (self, part ++ out)

-- The loop of `feed`: `rest` is what it has not looked at, and `fuel` exceeds its length. The texts
-- emitted are joined.
unfoldable pub scan : ℕ → ThinkFilter → Text → ThinkFilter × Text
unfolding find_start_tag find_end_tag pending hold_back get_start_tag drop
scan zero self rest = (self, [])
scan (suc fuel) self [] = (record self { buffer = [] }, [])
scan (suc fuel) self (c ∷ rest) = elim self.in_think [
  | true ↦ elim (find_end_tag self.think_start_tag (c ∷ rest)) [
    | none ↦ (record self { buffer = pending self.think_start_tag (c ∷ rest) }, [])
    | some after ↦ scan fuel (record self { in_think = false; think_start_tag = [] }) after
  ]
  | false ↦ elim (find_start_tag (c ∷ rest)) [
    | none ↦ hold_back self (c ∷ rest)
    | some found ↦
        let start_tag = get_start_tag found.1 in
        emit found.0 (
          scan fuel (record self { in_think = true; think_start_tag = start_tag })
            (drop (length start_tag) found.1))
  ]
]

unfoldable pub feed : ThinkFilter → Text → ThinkFilter × Text
unfolding scan
feed self [] = (self, [])
feed self (c ∷ chunk) =
    let buffer = self.buffer ++ c ∷ chunk in
    scan (suc (length buffer)) (record self { buffer = buffer }) buffer

unfoldable pub flush : ThinkFilter → ThinkFilter × Text
flush self = if self.in_think then (new_filter, []) else (record self { buffer = [] }, self.buffer)

-- A stream that is filtered chunk by chunk, and flushed at its end.
unfoldable pub filter_stream : ThinkFilter → List Text → Text
unfolding feed flush
filter_stream self [] = (flush self).1
filter_stream self (chunk ∷ chunks) =
    let (next, out) = feed self chunk in out ++ filter_stream next chunks

-- The start tags do not occur.
abbrev pub HasNoTag : Text → Type 0
HasNoTag t = find_start_tag t ≡ none
