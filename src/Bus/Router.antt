-- ===== src/Bus/Router.antt =====
-- lsmf/system_bus_service.py `DbusNextRouter`: the messages of the bus, and the replies to them.
use lsmf.Base.{
  String, ◌<>◌, Bool, true, false, ◌&&◌, List, [], ◌∷◌, Option, none, some, ◌==◌, str_eq,
  if◌then◌else◌,
}
use Prim.Native.Char.{code}
use lsmf.Bus.Caller.{Error, boundary_error, other_error}
use lsmf.Bus.Service.{Answer, returned, raises}

pub data MessageType : Type 0 where
  method_call signal other_type : MessageType

-- A received message, with `none` for an attribute that is not there. An item of the body that is no
-- text is `none`; a body that is no list is `none` itself.
pub record Message : Type 0 where
  pub message_type : MessageType
  pub path : Option String
  pub interface : Option String
  pub sender : Option String
  pub member : Option String
  pub signature : Option String
  pub body : Option (List (Option String))

-- `value == text` of an attribute
abbrev is_text : Option String → String → Bool
is_text none text = false
is_text (some value) text = str_eq value text

abbrev is_method_call : MessageType → Bool
is_method_call MessageType.method_call = true
is_method_call _ = false

abbrev is_signal : MessageType → Bool
is_signal MessageType.signal = true
is_signal _ = false

-- `_is_helper_call`
abbrev pub is_helper_call : Message → Bool
is_helper_call m =
    is_method_call m.message_type
    && is_text m.path "/org/lsmf/Helper1"
    && is_text m.interface "org.lsmf.Helper1"

-- `_is_disconnect_signal`
abbrev pub is_disconnect_signal : Message → Bool
is_disconnect_signal m =
    is_signal m.message_type
    && is_text m.sender "org.freedesktop.DBus"
    && is_text m.path "/org/freedesktop/DBus"
    && is_text m.interface "org.freedesktop.DBus"
    && is_text m.member "NameOwnerChanged"
    && is_text m.signature "sss"

-- `text.startswith(":")`
abbrev pub is_unique_name : String → Bool
is_unique_name String.[] = false
is_unique_name (String.◌∷◌ c s) = code c == b':'

-- What `handle` does: nothing, a call of the boundary's `disconnected`, a task that dispatches the
-- message, or it raises. It returns True for the task alone.
pub data Handled : Type 0 where
  ignored : Handled
  vanished : String → Handled
  task : Handled
  type_error : Handled

-- the body of a disconnect signal
abbrev pub owner_change : Option (List (Option String)) → Handled
owner_change none = type_error
owner_change (some (some name ∷ _ ∷ some owner ∷ [])) =
    if is_unique_name name && str_eq owner "" then vanished name else ignored
owner_change (some _) = ignored

-- `handle`
unfoldable pub handle : Message → Handled
handle m =
    if is_disconnect_signal m
    then owner_change m.body
    else if is_helper_call m
    then task
    else ignored

-- What `_dispatch` asks of the boundary, with the sender and the only item of the body.
pub data Asked : Type 0 where
  submits : String → String → Asked
  cancels : String → String → Asked
  rejected : Error → Asked

abbrev invalid_call : Asked
invalid_call = rejected (boundary_error "invalid_call" "Method call is invalid")

abbrev only_text : Option (List (Option String)) → (String → Asked) → Asked
only_text (some (some payload ∷ [])) ask = ask payload
only_text _ ask = invalid_call

abbrev from_sender : Option String → (String → Asked) → Asked
from_sender none ask = invalid_call
from_sender (some sender) ask = if is_unique_name sender then ask sender else invalid_call

-- `_dispatch` up to its call of the boundary
unfoldable pub asked : Message → Asked
asked m =
    if is_text m.member "Submit"
    then checked (λ sender payload. submits sender payload)
    else if is_text m.member "Cancel"
    then checked (λ sender payload. cancels sender payload)
    else invalid_call
  where
    checked : (String → String → Asked) → Asked
    checked ask =
        from_sender m.sender
          λ sender. if is_text m.signature "s" then only_text m.body (ask sender) else invalid_call

-- A reply: the text of a method's return, or an error's name and text.
pub data Sent : Type 0 where
  method_return : String → Sent
  error_reply : String → String → Sent

-- the rest of `_dispatch`: a cancellation of its task is no `Exception`, and nothing is sent
unfoldable pub reply_to : Answer → Option Sent
reply_to (returned response) = some (method_return response)
reply_to (raises (boundary_error code message)) =
    some (error_reply ("org.lsmf.Helper1.Error." <> code) message)
reply_to (raises (other_error message)) =
    some (error_reply "org.lsmf.Helper1.Error.internal_error" "Internal service error")
reply_to (raises Error.cancelled) = none
