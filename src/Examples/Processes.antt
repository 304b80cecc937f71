-- ===== src/Examples/Processes.antt =====
-- Runs of the process output and of the clipboard (src/process_output.rs, src/clipboard_transfer.rs).
use cocoa_way.Base.{
  ℕ, ◌<◌, ◌+◌, ◌*◌, ◌≡◌, refl, pos, true, none, some, List, [], ◌∷◌, ok, arith, length,
}
use cocoa_way.ProcessOutput as output
use cocoa_way.ProcessOutput.{Fill, chunk, interrupted, read_error, Item, line, read_failed}
use cocoa_way.ProcessOutput.Split.{content, IsReader, split_from}
use cocoa_way.ProcessOutput.Collect.{collect, expected, collect-expected}
use cocoa_way.ProcessOutput.Queue as queue
use cocoa_way.Clipboard.Transfers as transfers
use cocoa_way.Clipboard.Images.{HostImageJob}
use cocoa_way.Clipboard.Started as images

-- `ab\r\nc`, in three chunks with an interrupted call, then an error in a line, and `d` at the end.
abbrev fills : List Fill
fills =
    chunk (97 ∷ [])
    ∷ interrupted
    ∷ chunk (98 ∷ 13 ∷ [])
    ∷ chunk (10 ∷ 99 ∷ [])
    ∷ read_error
    ∷ chunk (100 ∷ [])
    ∷ []

-- A redactor that counts its lines and shows them as they are.
abbrev show_all : ℕ → List ℕ → ℕ × List ℕ
show_all n text = (n + 1, text)

fills-IsReader : IsReader fills
unfolding IsReader
fills-IsReader = tt

fills_short : length (content fills) < 8
unfolding content
fills_short = omega arith

collect-expected_example :
    collect show_all 8 (record { reader = fills; redactor = 0 })
    ≡ expected show_all 0 (split_from [] (content fills))
collect-expected_example = collect-expected show_all fills 0 8 fills-IsReader fills_short

expected-fills :
    expected show_all 0 (split_from [] (content fills))
    ≡ line (97 ∷ 98 ∷ []) ∷ read_failed ∷ line (100 ∷ []) ∷ []
unfolding expected split_from content output.emit output.strip_cr output.max_line_bytes
expected-fills = refl

abbrev reservations : List queue.Op
reservations =
    queue.op_reserve 100
    ∷ queue.op_reserve (5 * 1024 * 1024)
    ∷ queue.op_reserve 50
    ∷ queue.op_drop 1
    ∷ []

usage-reservations : (queue.run queue.start reservations).usage.bytes ≡ 50
unfolding queue.run queue.step queue.granted queue.drop_at output.reserve output.drop_permit
usage-reservations = refl

-- Two reservations whose steps alternate, and one that is too large.
abbrev transfer_steps : List transfers.Op
transfer_steps =
    transfers.op_reserve 1000
    ∷ transfers.op_reserve (60 * 1024 * 1024)
    ∷ transfers.op_advance 1
    ∷ transfers.op_advance 0
    ∷ transfers.op_reserve (65 * 1024 * 1024)
    ∷ transfers.op_advance 1
    ∷ transfers.op_advance 1
    ∷ []

run-start-Exact_example :
    transfers.Exact
      (transfers.run transfers.start transfer_steps).budget
      (transfers.run transfers.start transfer_steps).threads
      0
      0
run-start-Exact_example = transfers.run-start-Exact transfer_steps

abbrev image : ℕ → HostImageJob
image n = record { token = record { generation = n; change_count = pos n }; tiff = n ∷ [] }

abbrev image_steps : List images.Op
image_steps =
    images.op_replace (some (image 1))
    ∷ images.op_start true
    ∷ images.op_replace (some (image 2))
    ∷ images.op_start true
    ∷ images.op_takes
    ∷ images.op_sends (some (ok none))
    ∷ images.op_poll
    ∷ images.op_start true
    ∷ images.op_takes
    ∷ images.op_ends
    ∷ images.op_poll
    ∷ []

run-start-IsSingle_example : images.IsSingle (images.run images.start image_steps)
run-start-IsSingle_example = images.run-start-IsSingle image_steps
