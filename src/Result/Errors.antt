-- ===== src/Result/Errors.antt =====
-- modules/rs/rustfbp/src/result.rs: an error as the standard library's `Error`, and how an error is made of
-- one of the standard library.
use fractalide.Prelude.{◌≡◌, ◌↔◌, refl, sym, ap, subst, some_inj, String, Option, none, some}
use fractalide.Result.{
  TryRecvError, try_recv_text, Error, bad_schema, io, from_utf8, mpsc, mpsc_try_recv, misc,
  mpsc_send, agent_not_found, output_port_not_connected, output_not_connected,
  array_output_port_not_connected, port_not_found, port_dont_exist, element_not_found,
  cannot_remove, bad_message_info,
}

-- `error::Error`: what the standard library says of an input or output error and of a bad text,
-- which are kept here as what they show, is the argument.
unfoldable pub description : (String → String) → Error → String
unfolding try_recv_text
description of (bad_schema oc op os ic ip is) = "Bad schema"
description of (io e) = of e
description of (from_utf8 e) = of e
description of mpsc = "receiving on a closed channel"
description of (mpsc_try_recv e) = try_recv_text e
description of (misc e) = e
description of mpsc_send = "Mpsc : cannot send"
description of (output_port_not_connected c p) = "Output port not connected"
description of output_not_connected = "Output port not connected"
description of (array_output_port_not_connected c p s) = "Array Output port not connect"
description of (agent_not_found c) = "Agent not found"
description of (port_not_found c p) = "Port not found"
description of (port_dont_exist p) = "Port not found"
description of (element_not_found c p s) = "Element not found"
description of (cannot_remove c) = "Cannot remove agent"
description of bad_message_info = "Ports error : cannot receive the message, wrong bit information"

-- The errors of the standard library that are wrapped.
pub data Cause : Type 0 where
  io_error from_utf8_error : String → Cause
  recv_error : Cause
  try_recv_error : TryRecvError → Cause

unfoldable pub cause : Error → Option Cause
cause (io e) = some (io_error e)
cause (from_utf8 e) = some (from_utf8_error e)
cause mpsc = some recv_error
cause (mpsc_try_recv e) = some (try_recv_error e)
cause _ = none

-- `From` of a wrapped error
pub from_cause : Cause → Error
from_cause (io_error e) = io e
from_cause (from_utf8_error e) = from_utf8 e
from_cause recv_error = mpsc
from_cause (try_recv_error e) = mpsc_try_recv e

-- `From<String>`
pub from_string : String → Error
from_string e = misc e

-- An error has a cause exactly where it has been made from it.
pub cause-from_cause : (e : Error) (c : Cause) → (cause e ≡ some c) ↔ (from_cause c ≡ e)
unfolding cause from_cause
cause-from_cause e c = (made_from e c, λ h. subst (λ e. cause e ≡ some c) h (has_cause c))
  where
    made_from : (e : Error) (c : Cause) → cause e ≡ some c → from_cause c ≡ e
    made_from (io e) c h = ap from_cause (some_inj (sym h))
    made_from (from_utf8 e) c h = ap from_cause (some_inj (sym h))
    made_from mpsc c h = ap from_cause (some_inj (sym h))
    made_from (mpsc_try_recv e) c h = ap from_cause (some_inj (sym h))
    made_from _ c h = absurd (cc)

    has_cause : (c : Cause) → cause (from_cause c) ≡ some c
    has_cause (io_error e) = refl
    has_cause (from_utf8_error e) = refl
    has_cause recv_error = refl
    has_cause (try_recv_error e) = refl
