-- ===== src/ProcessOutput.antt =====
-- The output of child processes (src/process_output.rs): the lines of a reader, and the budget of the
-- lines that wait for the user interface. A reader is the list of what its fill_buf gives: a
-- chunk, an interrupted call or an error; after the list it is at its end. The redactor and the
-- decoding of the bytes are a function on a state of any kind.
pub mod Split
pub mod Lines
pub mod Collect
pub mod Queue
use cocoa_way.Base.{
  ℕ, zero, suc, ◌+◌, ◌-◌, ◌*◌, ◌≡◌, min, Bool, true, false, not, ◌&&◌, ◌||◌, Option, none, some,
  List, [], ◌∷◌, ◌++◌, if◌then◌else◌, length, ltb, leb, ◌==◌, Result, ok, err, is_some, nat_of, max,
}

unfoldable pub max_line_bytes : ℕ
max_line_bytes = 16 * 1024

abbrev pub newline : ℕ
newline = 10

abbrev pub carriage_return : ℕ
carriage_return = 13

-- `slice.iter().position(|byte| *byte == b'\n')`.
unfoldable pub position : List ℕ → Option ℕ
position [] = none
position (b ∷ bs) =
    let later = position bs in
    if b == newline then some 0 else elim later [ none ↦ none | some i ↦ some (suc i) ]

abbrev pub take {ℓ} : {A : Type ℓ} → ℕ → List A → List A
take zero xs = []
take (suc n) [] = []
take (suc n) (x ∷ xs) = x ∷ take n xs

abbrev pub drop {ℓ} : {A : Type ℓ} → ℕ → List A → List A
drop zero xs = xs
drop (suc n) [] = []
drop (suc n) (x ∷ xs) = drop n xs

pub data Fill : Type 0 where
  chunk : List ℕ → Fill
  interrupted read_error : Fill

-- The bytes of a chunk that are left after `consume`; a chunk that is used up is gone.
unfoldable pub consume : ℕ → List ℕ → List Fill → List Fill
consume n available fills = refill (drop n available) fills
  where
    refill : List ℕ → List Fill → List Fill
    refill [] fills = fills
    refill (b ∷ bs) fills = chunk (b ∷ bs) ∷ fills

pub data Loop : Type 0 where
  ended failed : List Fill → Loop
  line_end : List ℕ → Bool → List Fill → Loop

unfoldable pub at_end : List ℕ → Bool → List Fill → Loop
at_end [] false fills = ended fills
at_end [] true fills = line_end [] true fills
at_end (b ∷ bs) truncated fills = line_end (b ∷ bs) truncated fills

abbrev pub unwrap_or {ℓ} : {A : Type ℓ} → Option A → A → A
unwrap_or none a = a
unwrap_or (some b) a = b

-- The loop of BoundedLines::next over the rest of the reader, the bytes kept and whether some were
-- left out. An empty chunk, like the end of the list, is the end of the output.
unfoldable pub next_loop : List Fill → List ℕ → Bool → Loop
next_loop [] bytes truncated = at_end bytes truncated []
next_loop (interrupted ∷ fills) bytes truncated = next_loop fills bytes truncated
next_loop (read_error ∷ fills) bytes truncated = failed fills
next_loop (chunk [] ∷ fills) bytes truncated = at_end bytes truncated fills
next_loop (chunk (b ∷ bs) ∷ fills) bytes truncated =
    let available = b ∷ bs in
    let found = position available in
    let len = unwrap_or found (length available) in
    let copied = min len (max_line_bytes - length bytes) in
    let bytes' = bytes ++ take copied available in
    let truncated' = truncated || not (copied == len) in
    elim found [
      | none ↦ next_loop fills bytes' truncated'
      | some i ↦ line_end bytes' truncated' (consume (suc len) available fills)
    ]

-- The bytes without a carriage return at their end.
unfoldable pub strip_cr : List ℕ → List ℕ
strip_cr [] = []
strip_cr (b ∷ []) = if b == carriage_return then [] else b ∷ []
strip_cr (b ∷ c ∷ bs) = b ∷ strip_cr (c ∷ bs)

-- `[output truncated]`.
abbrev pub output_truncated : List ℕ
output_truncated =
    b'[' ∷ b'o' ∷ b'u' ∷ b't' ∷ b'p' ∷ b'u' ∷ b't' ∷ b' ' ∷ b't' ∷ b'r' ∷ b'u' ∷ b'n' ∷ b'c' ∷ b'a'
    ∷ b't' ∷ b'e' ∷ b'd' ∷ b']' ∷ []

pub data Item : Type 0 where
  line : List ℕ → Item
  read_failed : Item

module _ {ℓ} {S : Type ℓ} (redact : S → List ℕ → S × List ℕ) where
  unfoldable pub emit : S → List ℕ → Bool → S × Item
  emit s bytes truncated =
      let (s', out) = redact s (strip_cr bytes) in
      (s', line (if truncated then output_truncated else out))

  pub record BoundedLines : Type ℓ where
    pub reader : List Fill
    pub redactor : S

  unfoldable pub after_loop : S → Loop → BoundedLines × Option Item
  after_loop s (ended fills) = (record { reader = fills; redactor = s }, none)
  after_loop s (failed fills) = (record { reader = fills; redactor = s }, some read_failed)
  after_loop s (line_end bytes truncated fills) =
      let (s', item) = emit s bytes truncated in
      (record { reader = fills; redactor = s' }, some item)

  unfoldable pub next : BoundedLines → BoundedLines × Option Item
  next l = after_loop l.redactor (next_loop l.reader [] false)

abbrev pub max_queued_lines : ℕ
max_queued_lines = 256

abbrev pub max_queued_bytes : ℕ
max_queued_bytes = 4 * 1024 * 1024

pub record Usage : Type 0 where
  pub lines : ℕ
  pub bytes : ℕ

pub record LogPermit : Type 0 where
  pub bytes : ℕ

-- Budget::reserve, under its lock. The subtraction of the source saturates, as `-` does here.
unfoldable pub reserve : Usage → ℕ → Usage × Option LogPermit
reserve u bytes =
    if leb max_queued_lines u.lines || ltb (max_queued_bytes - u.bytes) bytes
    then (u, none)
    else (record { lines = u.lines + 1; bytes = u.bytes + bytes }, some (record { bytes = bytes }))

-- The drop of a permit; the source would panic below 0.
unfoldable pub drop_permit : Usage → LogPermit → Usage
drop_permit u permit = record { lines = u.lines - 1; bytes = u.bytes - permit.bytes }
