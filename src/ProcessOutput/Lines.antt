-- ===== src/ProcessOutput/Lines.antt =====
-- One call of BoundedLines::next: what its loop has read (src/process_output.rs).
use cocoa_way.Base.{
  ℕ, zero, suc, ◌+◌, ◌-◌, ◌<◌, ◌≡◌, refl, sym, ap, subst, ◌∙◌, inl, inr, min, Bool, false, not,
  ◌||◌, Option, none, some, List, [], ◌∷◌, ◌++◌, map, length, ltb, ◌==◌, arith, Option-cases,
  length-append,
}
use cocoa_way.ProcessOutput.{
  Fill, chunk, interrupted, read_error, position, take, drop, max_line_bytes, consume, Loop, ended,
  failed, line_end, at_end, next_loop,
}
use cocoa_way.ProcessOutput.Split.{
  content, IsReader, split_from, split_none, split_some, kept_more, cut_more, take-nil, take_all,
  length-map-some,
}

-- What the loop has done when it began in the line `cur`.
unfoldable pub Reads : List ℕ → List Fill → Loop → Type 0
Reads cur fills (ended rest) = split_from cur (content fills) ≡ []
Reads cur fills (failed rest) =
    (split_from cur (content fills) ≡ none ∷ split_from [] (content rest))
    × (length (content rest) < length (content fills))
    × IsReader rest
Reads cur fills (line_end bytes truncated rest) =
    (whole : List ℕ) × (bytes ≡ take max_line_bytes whole)
    × (truncated ≡ ltb max_line_bytes (length whole))
    × (split_from cur (content fills) ≡ some whole ∷ split_from [] (content rest))
    × (length (content rest) < length cur + length (content fills))
    × IsReader rest

Reads-chunk :
    (b : ℕ) (bs cur : List ℕ) (fills : List Fill) (l : Loop)
    → position (b ∷ bs) ≡ none
    → Reads (cur ++ b ∷ bs) fills l
    → Reads cur (chunk (b ∷ bs) ∷ fills) l
unfolding Reads content
Reads-chunk b bs cur fills (ended rest) e r = split_none (b ∷ bs) cur (content fills) e ∙ r
Reads-chunk b bs cur fills (failed rest) e (same, less, reader) = (
  split_none (b ∷ bs) cur (content fills) e ∙ same,
  omega (arith, length-map-some (b ∷ bs) (content fills)),
  reader,
)
Reads-chunk b bs cur fills (line_end bytes truncated rest) e
      (whole, kept, cut, same, less, reader) =
    (
      whole,
      kept,
      cut,
      split_none (b ∷ bs) cur (content fills) e ∙ same,
      omega (arith, length-map-some (b ∷ bs) (content fills), length-append cur (b ∷ bs)),
      reader,
    )

-- A chunk with no newline adds all its bytes to the line.
Reads-whole :
    (loop : List ℕ → Bool → Loop) (b : ℕ) (bs cur : List ℕ) (fills : List Fill)
    → position (b ∷ bs) ≡ none
    → Reads
        (cur ++ b ∷ bs)
        fills
        (loop (take max_line_bytes (cur ++ b ∷ bs)) (ltb max_line_bytes (length (cur ++ b ∷ bs))))
    → let n = suc (length bs) in
      let copied = min n (max_line_bytes - length (take max_line_bytes cur)) in
      Reads cur (chunk (b ∷ bs) ∷ fills) (
        loop
          (take max_line_bytes cur ++ take copied (b ∷ bs))
          (ltb max_line_bytes (length cur) || not (copied == n)))
Reads-whole loop b bs cur fills nothing r =
    let n = suc (length bs) in
    let same = ap (λ xs. cur ++ xs) (take_all (b ∷ bs)) in
    let kept =
      kept_more max_line_bytes n cur (b ∷ bs) (omega arith)
      ∙ ap (λ xs. take max_line_bytes xs) same in
    let cut =
      cut_more max_line_bytes n cur (b ∷ bs) (omega arith)
      ∙ ap (λ xs. ltb max_line_bytes (length xs)) same in
    Reads-chunk b bs cur fills _ nothing (
      subst
        (λ k. Reads (cur ++ b ∷ bs) fills (
          loop k (
            ltb max_line_bytes (length cur)
            || not (min n (max_line_bytes - length (take max_line_bytes cur)) == n))))
        (sym kept)
        (subst (λ t. Reads (cur ++ b ∷ bs) fills (loop (take max_line_bytes (cur ++ b ∷ bs)) t))
          (sym cut) r))

at_end-Reads :
    (cur : List ℕ) (m : ℕ)
    → 0 < m
    → m ≡ max_line_bytes
    → Reads cur [] (at_end (take m cur) (ltb m (length cur)) [])
unfolding Reads at_end content split_from IsReader
at_end-Reads cur zero p e = absurd (omega arith)
at_end-Reads [] (suc m) p e =
    let none_cut : ltb (suc m) 0 ≡ false = ground arith in rw none_cut refl
at_end-Reads (c ∷ cur) (suc m) p e = (
  c ∷ cur,
  ap (λ n. take n (c ∷ cur)) e,
  ap (λ n. ltb n (length (c ∷ cur))) e,
  refl,
  omega arith,
  tt,
)

max_line_bytes-pos : 0 < max_line_bytes
unfolding max_line_bytes
max_line_bytes-pos = omega arith

content-consume :
    (n : ℕ) (bs : List ℕ) (fills : List Fill)
    → content (consume n bs fills) ≡ map some (drop n bs) ++ content fills
unfolding content consume
content-consume zero [] fills = refl
content-consume zero (b ∷ bs) fills = refl
content-consume (suc n) [] fills = refl
content-consume (suc n) (b ∷ bs) fills = content-consume n bs fills

consume-IsReader :
    (n : ℕ) (bs : List ℕ) (fills : List Fill) → IsReader fills → IsReader (consume n bs fills)
unfolding IsReader consume
consume-IsReader zero [] fills r = r
consume-IsReader zero (b ∷ bs) fills r = r
consume-IsReader (suc n) [] fills r = r
consume-IsReader (suc n) (b ∷ bs) fills r = consume-IsReader n bs fills r

length-drop : (n : ℕ) (bs : List ℕ) → length (drop n bs) ≡ length bs - n
length-drop zero bs = omega arith
length-drop (suc n) [] = omega arith
length-drop (suc n) (b ∷ bs) = omega (arith, length-drop n bs)

Reads-line :
    (bs cur : List ℕ) (fills : List Fill) (i : ℕ)
    → position bs ≡ some i
    → IsReader fills
    → Reads cur (chunk bs ∷ fills) (
        line_end
          (take max_line_bytes cur
            ++ take (min i (max_line_bytes - length (take max_line_bytes cur))) bs)
          (ltb max_line_bytes (length cur)
            || not (min i (max_line_bytes - length (take max_line_bytes cur)) == i))
          (consume (suc i) bs fills))
unfolding Reads content
Reads-line bs cur fills i found r =
    let (within, whole) = split_some bs cur (content fills) i found in
    let rest = content-consume (suc i) bs fills in
    let left = ap (λ (xs : List (Option ℕ)). length xs) rest in
    (
      cur ++ take i bs,
      kept_more max_line_bytes i cur bs (omega arith),
      cut_more max_line_bytes i cur bs (omega arith),
      whole ∙ ap (λ xs. some (cur ++ take i bs) ∷ split_from [] xs) (sym rest),
      omega (
        arith,
        left,
        length-map-some (drop (suc i) bs) (content fills),
        length-map-some bs (content fills),
        length-drop (suc i) bs,
      ),
      consume-IsReader (suc i) bs fills r,
    )

Reads-error :
    (cur : List ℕ) (fills : List Fill)
    → IsReader fills
    → Reads cur (read_error ∷ fills) (failed fills)
unfolding Reads content split_from
Reads-error [] fills r = (refl, omega arith, r)
Reads-error (c ∷ cur) fills r = (refl, omega arith, r)

Reads-again :
    (cur : List ℕ) (fills : List Fill) (l : Loop)
    → Reads cur fills l
    → Reads cur (interrupted ∷ fills) l
unfolding Reads content
Reads-again cur fills (ended rest) r = r
Reads-again cur fills (failed rest) r = r
Reads-again cur fills (line_end bytes truncated rest) r = r

next_loop-Reads :
    (fills : List Fill) (cur : List ℕ)
    → IsReader fills
    → Reads cur fills (next_loop fills (take max_line_bytes cur) (ltb max_line_bytes (length cur)))
unfolding next_loop IsReader
next_loop-Reads [] cur r = at_end-Reads cur max_line_bytes max_line_bytes-pos refl
next_loop-Reads (interrupted ∷ fills) cur r = Reads-again cur fills _ (next_loop-Reads fills cur r)
next_loop-Reads (read_error ∷ fills) cur r = Reads-error cur fills r
next_loop-Reads (chunk [] ∷ fills) cur r = absurd r
next_loop-Reads (chunk (b ∷ bs) ∷ fills) cur r = elim (Option-cases (position (b ∷ bs))) [
  | inl nothing ↦
      rw (nothing, next_loop, nothing)
        (Reads-whole (next_loop fills) b bs cur fills nothing
          (next_loop-Reads fills (cur ++ b ∷ bs) r))
  | inr (i, found) ↦ rw (found, next_loop, found) (Reads-line (b ∷ bs) cur fills i found r)
]

pub start-Reads : (fills : List Fill) → IsReader fills → Reads [] fills (next_loop fills [] false)
start-Reads fills r =
    let none_cut : ltb max_line_bytes 0 ≡ false = ground arith in
    let none_kept : take max_line_bytes [] ≡ [] = take-nil max_line_bytes in
    subst (λ t. Reads [] fills (next_loop fills [] t)) none_cut
      (subst (λ k. Reads [] fills (next_loop fills k (ltb max_line_bytes 0))) none_kept
        (next_loop-Reads fills [] r))
