-- ===== src/Nodes/Boolean.antt =====
-- The agents of nodes/rs/maths/boolean, and nodes/rs/msg/clone/lib.rs.
use fractalide.Prelude.{String, Bool, not, Option, [], ◌∷◌, ◌&&◌, if◌then◌else◌, format}
use fractalide.Prelude.Map.{Map}
use fractalide.Result.{Run, ok}
use fractalide.Ports
use fractalide.Ports.{World, Act}
use fractalide.Ports.Ends.{MsgSender, MsgReceiver}
use fractalide.Scheduler.Messages.{Signal}
use fractalide.Nodes.{Message, Node, ◌>>=◌, ◌>>◌, return, act, attempt, println, recv, send}

module _ {M : Type 0} where
  -- nodes/rs/maths/boolean: nand, true, false and print
  module _ (bools : Message M Bool) where
    -- The sum of the elements, which is not used; `add` is the addition of the build, with a panic or
    -- without one where it overflows.
    module _ {T : Type 0} (numbers : Message M T) (add : T → T → Run T) where
      unfoldable pub recv_sum : T → Map String MsgReceiver → Node M T
      recv_sum sum [] = return (ok sum)
      recv_sum sum ((name, r) ∷ rs) = do
        elem ← recv numbers r
        more ← return (add sum elem)
        recv_sum more rs

      unfoldable pub nand :
          T → MsgReceiver → MsgReceiver → Map String MsgReceiver → Option MsgSender → Node M Signal
      unfolding recv_sum
      nand none_yet a_port b_port test output = do
        _ ← recv_sum none_yet test
        a ← recv bools a_port
        b ← recv bools b_port
        send bools output (not (a && b))
        return (ok Signal.end)

    unfoldable pub constant : Bool → Option MsgSender → Node M Signal
    constant b output = do send bools output b; return (ok Signal.end)

    abbrev pub shown : Bool → String
    shown b = if b then "true" else "false"

    unfoldable pub print : MsgReceiver → Option MsgSender → Node M Signal
    print input output = do
      a ← recv bools input
      println (format ("boolean : " ∷ shown a ∷ []))
      _ ← attempt (send bools output a)
      return (ok Signal.end)

    -- nodes/rs/msg/clone
    unfoldable pub send_clones : Map String MsgSender → Bool → Node M (Unit {0})
    send_clones [] msg = return (ok tt)
    send_clones ((name, s) ∷ rest) msg = do
      act (Ports.send s (bools.into msg))
      send_clones rest msg

    unfoldable pub clone : MsgReceiver → Map String MsgSender → Node M Signal
    unfolding send_clones
    clone input outputs = do msg ← recv bools input; send_clones outputs msg; return (ok Signal.end)
