-- ===== src/Server/Control.antt =====
-- server.rs: the bounded control channels from a connection's handler to its sessions. A callback
-- that sends waits for a place, and russh calls no other callback of the connection meanwhile.
pub mod Refine
pub mod Bounds
pub mod Held
use esesaetsch.Base.{
  ℕ, zero, suc, ◌+◌, Bool, true, false, not, ◌&&◌, ◌||◌, Option, none, some, List, [], ◌∷◌,
  if◌then◌else◌, length, nth, ltb, eqb,
}
use esesaetsch.Server.Types.{ServerState, Task, Handler, find_channel, tx_of}
use esesaetsch.Server.Events.{ChannelEvent, channel_data, window_change, on_channel}

-- `mpsc::channel::<ControlMsg>(32)`
abbrev pub control_capacity : ℕ
control_capacity = 32

-- How many messages a session has received, and whether its receiver is still there.
pub record Receiver : Type 0 where
  pub taken : ℕ
  pub is_open : Bool

abbrev pub new_receiver : Receiver
new_receiver = record { taken = 0; is_open = true }

-- The handler, with the receivers of its sessions by their number, and the callback that waits.
pub record Link (Env Child : Type 0) : Type 0 where
  pub handler : Handler Env Child
  pub receivers : ℕ → Receiver
  pub waiting : Option ChannelEvent

pub data LinkEvent : Type 0 where
  callback : ChannelEvent → LinkEvent
  received : (session : ℕ) → LinkEvent
  -- the session's task has ended
  dropped : (session : ℕ) → LinkEvent

abbrev pub set_receiver : ℕ → Receiver → (ℕ → Receiver) → ℕ → Receiver
set_receiver i r receivers j = if eqb i j then r else receivers j

-- How many messages a session was sent.
abbrev pub messages_to : {Child : Type 0} → ℕ → List (Task Child) → ℕ
messages_to i [] = 0
messages_to zero (t ∷ tasks) = length t.control
messages_to (suc i) (t ∷ tasks) = messages_to i tasks

module _ {Env Child : Type 0} where
  -- The session that the callback sends to.
  abbrev pub target : Handler Env Child → ChannelEvent → Option ℕ
  target h (channel_data id bytes) = tx_of (find_channel id h.channels)
  target h (window_change id c r) = tx_of (find_channel id h.channels)
  target h _ = none

  -- Whether a send to the session ends at once: there is a place, or no receiver.
  abbrev pub has_room : Link Env Child → Option ℕ → Bool
  has_room l none = true
  has_room l (some i) =
      not (l.receivers i).is_open
      || ltb (messages_to i l.handler.tasks) ((l.receivers i).taken + control_capacity)

module _ {Env Child Cert : Type 0} (state : ServerState Env Cert Child) where
  -- The callback is run if what it sends has a place, and waits otherwise.
  abbrev pub call : ChannelEvent → Link Env Child → Link Env Child
  call e l =
      if has_room l (target l.handler e)
      then record l { handler = on_channel state l.handler e; waiting = none }
      else record l { waiting = some e }

  abbrev pub resume : Option ChannelEvent → Link Env Child → Link Env Child
  resume none l = l
  resume (some e) l = call e l

  abbrev pub call_next :
      Option ChannelEvent → ChannelEvent → Link Env Child → Option (Link Env Child)
  call_next none e l = some (call e l)
  call_next (some busy) e l = none

  abbrev pub take : ℕ → Link Env Child → Link Env Child
  take i l = record l {
    receivers =
        set_receiver i (record (l.receivers i) { taken = (l.receivers i).taken + 1 }) l.receivers;
  }

  abbrev pub drop_receiver : ℕ → Link Env Child → Link Env Child
  drop_receiver i l = record l {
    receivers = set_receiver i (record (l.receivers i) { is_open = false }) l.receivers;
  }

  unfoldable pub step_link : Link Env Child → LinkEvent → Option (Link Env Child)
  step_link l (callback e) = call_next l.waiting e l
  step_link l (received i) =
      if (l.receivers i).is_open && ltb (l.receivers i).taken (messages_to i l.handler.tasks)
      then some (resume l.waiting (take i l))
      else none
  step_link l (dropped i) = some (resume l.waiting (drop_receiver i l))

  unfoldable pub run_link : Link Env Child → List LinkEvent → Option (Link Env Child)
  run_link l [] = some l
  run_link l (e ∷ events) = elim (step_link l e) [ none ↦ none | some u ↦ run_link u events ]
