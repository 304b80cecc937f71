-- ===== src/ProcessOutput/Collect.antt =====
-- The lines of a reader and the lines of its bytes (src/process_output.rs).
use cocoa_way.Base.{
  ℕ, zero, suc, ◌<◌, ◌≡◌, ap, false, Option, none, some, List, [], ◌∷◌, length, ltb, arith,
}
use cocoa_way.ProcessOutput.{
  Fill, take, max_line_bytes, Loop, ended, failed, line_end, next_loop, Item, read_failed, emit,
  BoundedLines, after_loop, next,
}
use cocoa_way.ProcessOutput.Split.{content, IsReader, split_from}
use cocoa_way.ProcessOutput.Lines.{Reads, start-Reads}

module _ {ℓ} {S : Type ℓ} (redact : S → List ℕ → S × List ℕ) where
  unfoldable pub gather :
      BoundedLines redact × Option Item → (BoundedLines redact → List Item) → List Item
  gather (l, none) more = []
  gather (l, some item) more = item ∷ more l

  -- The items up to the end of the reader, of `n` calls at most.
  unfoldable pub collect : ℕ → BoundedLines redact → List Item
  collect zero l = []
  collect (suc n) l = gather (next redact l) (collect n)

  -- The items of the lines of the bytes.
  unfoldable pub expected : S → List (Option (List ℕ)) → List Item
  expected s [] = []
  expected s (none ∷ lines) = read_failed ∷ expected s lines
  expected s (some whole ∷ lines) =
      let (s', item) =
        emit redact s (take max_line_bytes whole) (ltb max_line_bytes (length whole)) in
      item ∷ expected s' lines

  gather-expected :
      (n : ℕ) (s : S) (fills : List Fill) (l : Loop) (more : BoundedLines redact → List Item)
      → Reads [] fills l
      → length (content fills) < suc n
      → ((s' : S) (rest : List Fill)
          → IsReader rest
          → length (content rest) < n
          → more (record { reader = rest; redactor = s' })
            ≡ expected s' (split_from [] (content rest)))
      → gather (after_loop redact s l) more ≡ expected s (split_from [] (content fills))
  unfolding gather expected after_loop Reads
  gather-expected n s fills (ended rest) more r h later = rw r
  gather-expected n s fills (failed rest) more (same, less, reader) h later =
      rw same (ap (λ items. read_failed ∷ items) (later s rest reader (omega arith)))
  gather-expected n s fills (line_end bytes truncated rest) more
        (whole, kept, cut, same, less, reader) h later =
      let out = emit redact s (take max_line_bytes whole) (ltb max_line_bytes (length whole)) in
      rw (same, kept, cut) (ap (λ items. out.1 ∷ items) (later out.0 rest reader (omega arith)))

  -- However the bytes of a reader come in chunks, with interrupted calls and errors between them, the
  -- items are those of its lines: a line of at most 16384 bytes is redacted whole, without its newline
  -- and a carriage return before it; a longer one, of which the first 16384 bytes are redacted, gives
  -- the text `[output truncated]`; an error drops the line that it falls in and gives an item of its
  -- own. As many calls as there are bytes and errors, and one more, reach the end.
  pub collect-expected :
      (fills : List Fill) (s : S) (n : ℕ)
      → IsReader fills
      → length (content fills) < n
      → collect n (record { reader = fills; redactor = s })
        ≡ expected s (split_from [] (content fills))
  unfolding collect next
  collect-expected fills s zero r h = absurd (omega arith)
  collect-expected fills s (suc n) r h =
      gather-expected n s fills (next_loop fills [] false) (collect n) (start-Reads fills r) h
        (λ s' rest r' h'. collect-expected rest s' n r' h')
