-- ===== src/Ports/Tests.antt =====
-- A port in use.
use fractalide.Prelude.{
  ◌+◌, String, ◌≡◌, refl, true, none, some, List, [], ◌∷◌, ◌++◌, length, nat_eq,
}
use fractalide.Prelude.Map.{get, insert}
use fractalide.Ports
use fractalide.Ports.{World, capacity, content}
use fractalide.Ports.Ends.{MsgReceiver}
use fractalide.Ports.Traffic.{
  Op, sends, receives, tries, perform_all, accepted_all, received_all, IsPort, traffic_in_order,
}
use fractalide.Ports.Counts.{incs, decs, messages_counted}

abbrev world : World String
world = record {
  chans = [];
  next_chan = 3;
  notes = [];
  is_open = λ s. true;
  is_received = λ c. true;
}

receiver : MsgReceiver
unfolding Ports.new
receiver = (Ports.new 5 0 true world).0.0

used : World String
unfolding Ports.new
used = (Ports.new 5 0 true world).1

used-IsPort : IsPort receiver used
unfolding receiver used
used-IsPort = record {
  same_chan = refl;
  same_agent = refl;
  same_sched = refl;
  sender_tells = refl;
  receiver_tells = refl;
  reads = refl;
}

abbrev ops : List (Op String)
ops = sends none "a" ∷ tries ∷ sends (some "act") "b" ∷ sends none "c" ∷ receives ∷ []

traffic_in_order_example :
    received_all receiver ops used ++ content (perform_all receiver ops used) receiver.recv
    ≡ content used receiver.recv ++ accepted_all receiver ops used
traffic_in_order_example = traffic_in_order receiver ops used used-IsPort

messages_counted_example :
    incs receiver (perform_all receiver ops used)
      + decs receiver used
      + length (content used receiver.recv)
    ≡ incs receiver used
      + decs receiver (perform_all receiver ops used)
      + length (content (perform_all receiver ops used) receiver.recv)
messages_counted_example = messages_counted receiver ops used used-IsPort

two_received : received_all receiver ops used ≡ (none, "a") ∷ (some "act", "b") ∷ []
unfolding receiver used Ports.send_message Ports.recv_message Ports.try_recv_message get insert
two_received = refl
