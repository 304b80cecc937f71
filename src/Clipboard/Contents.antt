-- ===== src/Clipboard/Contents.antt =====
-- What the host's clipboard holds, into which a converted image is merged, and the requests that wait for
-- one (src/clipboard_transfer.rs). A descriptor is its number.
use cocoa_way.Base.{
  text_eq, ℤ, ℕ, Bool, true, false, not, ◌&&◌, Option, none, some, List, [], ◌∷◌, ◌++◌,
  if◌then◌else◌, leb, length, Result, ok, err, is_some,
}
use cocoa_way.Clipboard.{max_transfers}
use cocoa_way.Clipboard.Images.{
  HostImageToken, is_current, token_eq, ImageError, HostImageResult, HostImageCompletion,
}

pub record HostClipboardContents : Type 0 where
  pub text : Option (List ℕ)
  pub image_png : Option (List ℕ)
  pub text_only : Bool

unfoldable pub from_snapshot : Option (List ℕ) → Option (List ℕ) → Bool → HostClipboardContents
from_snapshot text image_png image_unresolved = record {
  text = text;
  image_png = image_png;
  text_only = not (is_some image_png) && not image_unresolved;
}

abbrev pub image_eq : Option (List ℕ) → Option (List ℕ) → Bool
image_eq none none = true
image_eq (some a) (some b) = text_eq a b
image_eq _ _ = false

unfoldable pub matches_text_only : HostClipboardContents → List ℕ → Bool
matches_text_only c text = c.text_only && not (is_some c.image_png) && image_eq c.text (some text)

unfoldable pub merge_result :
    HostClipboardContents → HostImageResult → HostClipboardContents × Result Bool ImageError
merge_result c (err e) = (c, err e)
merge_result c (ok image) = (record c { image_png = image }, ok (not (image_eq c.image_png image)))

unfoldable pub merge_image :
    HostClipboardContents
    → HostImageCompletion
    → ℕ
    → ℤ
    → ℤ
    → HostClipboardContents × Result Bool ImageError
merge_image c completion generation cached_count live_count =
    if not (is_current completion.token generation cached_count live_count)
    then (c, ok false)
    else merge_result c completion.result

pub record PendingHostImageRequests : Type 0 where
  pub token : Option HostImageToken
  pub fds : List ℕ

unfoldable pub reset : PendingHostImageRequests → Option HostImageToken → PendingHostImageRequests
reset r token = record { token = token; fds = [] }

abbrev pub is_token : Option HostImageToken → HostImageToken → Bool
is_token none token = false
is_token (some t) token = token_eq t token

pub data RetainError : Type 0 where
  not_pending fd_limit : RetainError

-- A descriptor that is refused is closed.
unfoldable pub retain :
    PendingHostImageRequests
    → HostImageToken
    → ℕ
    → PendingHostImageRequests × Result (Unit {0}) RetainError
retain r token fd =
    if not (is_token r.token token)
    then (r, err not_pending)
    else if leb max_transfers (length r.fds)
    then (r, err fd_limit)
    else (record r { fds = r.fds ++ fd ∷ [] }, ok tt)

unfoldable pub take : PendingHostImageRequests → HostImageToken → PendingHostImageRequests × List ℕ
take r token =
    if not (is_token r.token token) then (r, []) else (record { token = none; fds = [] }, r.fds)
