-- ===== src/Result.antt =====
-- modules/rs/rustfbp/src/result.rs: the errors of the runtime, and the results of fallible code.
pub mod Errors
use fractalide.Prelude.{◌≡◌, refl, ap, ◌∙◌, String, [], ◌∷◌, format}

-- `std::sync::mpsc::TryRecvError`
pub data TryRecvError : Type 0 where
  empty disconnected : TryRecvError

-- The wrapped errors of the standard library are kept as the text that they show.
pub data Error : Type 0 where
  bad_schema : String → String → String → String → String → String → Error
  io : String → Error
  from_utf8 : String → Error
  mpsc : Error
  mpsc_try_recv : TryRecvError → Error
  misc : String → Error
  mpsc_send : Error
  agent_not_found : String → Error
  output_port_not_connected : String → String → Error
  output_not_connected : Error
  array_output_port_not_connected : String → String → String → Error
  port_not_found : String → String → Error
  port_dont_exist : String → Error
  element_not_found : String → String → String → Error
  cannot_remove : String → Error
  bad_message_info : Error

-- `Result<T>`
pub data Result {ℓ} (A : Type ℓ) : Type ℓ where
  success : A → Result A
  failure : Error → Result A

-- What a piece of code comes to: a value, an error, a panic of its thread, or a wait for a message
-- that is not there.
pub data Run {ℓ} (A : Type ℓ) : Type ℓ where
  ok : A → Run A
  err : Error → Run A
  panic : Run A
  blocked : Run A

infixl 5 ◌>>=◌ ◌>>◌
abbrev pub ◌>>=◌ {ℓ κ} : {A : Type ℓ} {B : Type κ} → Run A → (A → Run B) → Run B
ok a >>= f = f a
err e >>= f = err e
panic >>= f = panic
blocked >>= f = blocked

abbrev pub ◌>>◌ {ℓ} : {B : Type ℓ} → Run (Unit {0}) → Run B → Run B
m >> k = m >>= λ _. k

-- How a chain of results ends well.
pub ok-bind {ℓ κ} :
    {X : Type ℓ} {Y : Type κ} (r : Run X) (f : X → Run Y) (y : Y)
    → (r >>= f) ≡ ok y
    → (x : X) × (r ≡ ok x) × (f x ≡ ok y)
ok-bind (ok x) f y h = (x, refl, h)
ok-bind (err e) f y h = absurd (cc)
ok-bind panic f y h = absurd (cc)
ok-bind blocked f y h = absurd (cc)

pub ok_inj {ℓ} : {X : Type ℓ} {x y : X} → ok x ≡ ok y → x ≡ y
ok_inj h = cc

pub bind-ok {ℓ κ} :
    {X : Type ℓ} {Y : Type κ} (r : Run X) (f : X → Run Y) (x : X) {q : Run Y}
    → r ≡ ok x
    → f x ≡ q
    → (r >>= f) ≡ q
bind-ok r f x e h = ap (λ r. r >>= f) e ∙ h

-- `fmt::Display` of `TryRecvError`, as the standard library words it
pub try_recv_text : TryRecvError → String
try_recv_text empty = "receiving on an empty channel"
try_recv_text disconnected = "receiving on a closed channel"

-- `fmt::Display`
unfoldable pub display : Error → String
unfolding try_recv_text
display (bad_schema oc op os ic ip is) = format (
    "Cap'n Proto Schema mismatch between " ∷ oc ∷ "() " ∷ op ∷ " -> " ∷ ip ∷ " " ∷ ic ∷ "(), found "
    ∷ os ∷ " -> " ∷ is ∷ [])
display (io e) = format ("IO error : " ∷ e ∷ [])
display (from_utf8 e) = format ("From Utf8 error : " ∷ e ∷ [])
display mpsc = format ("Mpsc error : " ∷ "receiving on a closed channel" ∷ [])
display (mpsc_try_recv e) = format ("Mpsc error : " ∷ try_recv_text e ∷ [])
display (misc e) = format ("Misc error : " ∷ e ∷ [])
display mpsc_send = "Mpsc error : cannot send"
display (output_port_not_connected c p) =
    format ("OutputSender : Port " ∷ p ∷ " of agent " ∷ c ∷ " is not connected" ∷ [])
display output_not_connected = "OutputSender : Port not connected"
display (array_output_port_not_connected c p s) =
    format
      ("OutputSender : Element " ∷ s ∷ " Port " ∷ p ∷ " of agent " ∷ c ∷ " is not connected" ∷ [])
display (agent_not_found c) = format ("Scheduler error : agent " ∷ c ∷ " is not found" ∷ [])
display (port_not_found c p) =
    format ("agent error : Port " ∷ p ∷ " of agent " ∷ c ∷ " is not found" ∷ [])
display (port_dont_exist p) = format ("agent error : Port " ∷ p ∷ " doesn't exist" ∷ [])
display (element_not_found c p s) =
    format
      ("agent error : Element " ∷ s ∷ " on port " ∷ p ∷ " of agent " ∷ c ∷ " is not found" ∷ [])
display (cannot_remove c) = format ("Scheduler error : Cannot remove agent " ∷ c ∷ [])
display bad_message_info = "Ports error : Bad message information"
