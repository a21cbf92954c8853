-- ===== src/Session/Stdin/Bounded.antt =====
-- session.rs: the channel to the stdin pump holds a bounded part of what the session sent, in order.
use esesaetsch.Base.{
  ◌+◌, ◌≤◌, Bool, true, false, Option, none, some, List, [], ◌∷◌, ◌++◌, ◌≡◌, refl, inl, inr, arith,
  Bool-cases, append_assoc, append-nil, ◌∙◌, length, ltb, if◌then◌else◌,
}
use esesaetsch.Crates.{Bytes}
use esesaetsch.Session.Loop.{Session}
use esesaetsch.Session.Stdin.{
  StdinPump, waiting, writing, closing, ended, SessionTask, stdin_capacity, enqueue, unblock,
  receive, conclude_write, shut_down,
}

abbrev pub pending : Option Bytes → List Bytes
pending none = []
pending (some bytes) = bytes ∷ []

-- Up to a failed write, nothing is lost.
abbrev pub IsKept : StdinPump → List Bytes → List Bytes → List Bytes → Type 0
IsKept waiting sent written on_way = sent ≡ written ++ on_way
IsKept (writing bytes) sent written on_way = sent ≡ written ++ bytes ∷ on_way
IsKept _ sent written on_way = (rest : List Bytes) × (sent ≡ written ++ rest)

abbrev pub IsFull : Option Bytes → List Bytes → Type 0
IsFull none queue = Unit
IsFull (some bytes) queue = length queue ≡ stdin_capacity

-- A pump that is there writes to the child's stdin.
abbrev pub HasWriter : StdinPump → Bool → Type 0
HasWriter ended has_writer = Unit
HasWriter _ has_writer = has_writer ≡ true

pub record IsBounded {Child : Type 0} (t : SessionTask Child) : Type 0 where
  pub bound : length t.queue ≤ stdin_capacity
  pub full : IsFull t.blocked t.queue
  pub kept : IsKept t.pump t.session.stdin_sent t.written (t.queue ++ pending t.blocked)
  pub writer : HasWriter t.pump t.session.has_writer

length-snoc : (q : List Bytes) (bytes : Bytes) → length (q ++ bytes ∷ []) ≡ length q + 1
length-snoc [] bytes = omega arith
length-snoc (x ∷ q) bytes = omega (arith, length-snoc q bytes)

IsKept-snoc :
    (p : StdinPump) (sent written q : List Bytes) (bytes : Bytes)
    → IsKept p sent written q
    → IsKept p (sent ++ bytes ∷ []) written (q ++ bytes ∷ [])
IsKept-snoc waiting sent written q bytes h = rw h (append_assoc written q (bytes ∷ []))
IsKept-snoc (writing c) sent written q bytes h = rw h (append_assoc written (c ∷ q) (bytes ∷ []))
IsKept-snoc closing sent written q bytes (rest, h) =
    (rest ++ bytes ∷ [], rw h (append_assoc written rest (bytes ∷ [])))
IsKept-snoc ended sent written q bytes (rest, h) =
    (rest ++ bytes ∷ [], rw h (append_assoc written rest (bytes ∷ [])))

-- A chunk that is sent and has a place behind those on their way.
pub IsKept-stdin :
    (p : StdinPump) (w : Bool) (sent sent' written q : List Bytes) (bytes : Bytes)
    → HasWriter p w
    → sent' ≡ (if w then sent ++ bytes ∷ [] else sent)
    → IsKept p sent written q
    → IsKept p sent' written (q ++ bytes ∷ [])
IsKept-stdin p true sent sent' written q bytes w e k = rw e (IsKept-snoc p sent written q bytes k)
IsKept-stdin ended false sent sent' written q bytes w e (rest, k) = (rest, e ∙ k)
IsKept-stdin waiting false sent sent' written q bytes w e k = absurd (ground arith)
IsKept-stdin (writing c) false sent sent' written q bytes w e k = absurd (ground arith)
IsKept-stdin closing false sent sent' written q bytes w e k = absurd (ground arith)

module _ {Child : Type 0} where
  -- A chunk that the session took is sent into the channel, or left to wait.
  send-IsBounded :
      (p : StdinPump) (bytes : Bytes) (t : SessionTask Child)
      → length t.queue ≤ stdin_capacity
      → IsKept p t.session.stdin_sent t.written (t.queue ++ bytes ∷ [])
      → HasWriter p t.session.has_writer
      → t.blocked ≡ none
      → IsBounded (
          if ltb (length t.queue) stdin_capacity
          then record t { pump = p; queue = t.queue ++ bytes ∷ [] }
          else record t { pump = p; blocked = some bytes })
  send-IsBounded p bytes t b k w free = elim (Bool-cases (ltb (length t.queue) stdin_capacity)) [
    | inl room ↦ rw room (record {
      bound = ground (arith, length-snoc t.queue bytes);
      full = rw free tt;
      kept = rw free (rw append-nil k);
      writer = w;
    })
    | inr full ↦ rw full (record { bound = b; full = ground arith; kept = k; writer = w })
  ]

  pub enqueue-IsBounded :
      (p : StdinPump) (bytes : Bytes) (t : SessionTask Child)
      → length t.queue ≤ stdin_capacity
      → IsKept p t.session.stdin_sent t.written (t.queue ++ bytes ∷ [])
      → HasWriter p t.session.has_writer
      → t.blocked ≡ none
      → IsBounded (enqueue p bytes (record t { pump = p }))
  enqueue-IsBounded ended bytes t b k w free = record {
    bound = b;
    full = rw free tt;
    kept = k;
    writer = w;
  }
  enqueue-IsBounded waiting bytes t b k w free = send-IsBounded waiting bytes t b k w free
  enqueue-IsBounded (writing c) bytes t b k w free = send-IsBounded (writing c) bytes t b k w free
  enqueue-IsBounded closing bytes t b k w free = send-IsBounded closing bytes t b k w free

  unblock-IsBounded :
      (o : Option Bytes) (bytes : Bytes) (rest : List Bytes) (t : SessionTask Child)
      → IsFull o (bytes ∷ rest)
      → length (bytes ∷ rest) ≤ stdin_capacity
      → t.session.stdin_sent ≡ t.written ++ ((bytes ∷ rest) ++ pending o)
      → t.session.has_writer ≡ true
      → IsBounded (unblock o (record t { pump = writing bytes; queue = rest; blocked = o }))
  unblock-IsBounded none bytes rest t f b k w = record {
    bound = omega arith;
    full = tt;
    kept = k;
    writer = w;
  }
  unblock-IsBounded (some c) bytes rest t f b k w = record {
    bound = omega (arith, length-snoc rest c);
    full = tt;
    kept = rw append-nil k;
    writer = w;
  }

  -- The task after an event, if the event can occur.
  abbrev pub Holds : Option (SessionTask Child) → Type 0
  Holds none = Unit
  Holds (some t) = IsBounded t

  pub receive-Holds :
      (p : StdinPump) (q : List Bytes) (t : SessionTask Child)
      → IsBounded (record t { pump = p; queue = q })
      → Holds (receive p q t)
  receive-Holds waiting (bytes ∷ rest) t v =
      unblock-IsBounded t.blocked bytes rest t v.full v.bound v.kept v.writer
  receive-Holds waiting [] t v = tt
  receive-Holds (writing c) q t v = tt
  receive-Holds closing q t v = tt
  receive-Holds ended q t v = tt

  pub conclude_write-Holds :
      (p : StdinPump) (done : Bool) (t : SessionTask Child)
      → IsBounded (record t { pump = p })
      → Holds (conclude_write p done t)
  conclude_write-Holds (writing bytes) true t v = record {
    bound = v.bound;
    full = v.full;
    kept = rw append_assoc v.kept;
    writer = v.writer;
  }
  conclude_write-Holds (writing bytes) false t v = record {
    bound = v.bound;
    full = v.full;
    kept = (bytes ∷ t.queue ++ pending t.blocked, v.kept);
    writer = v.writer;
  }
  conclude_write-Holds waiting done t v = tt
  conclude_write-Holds closing done t v = tt
  conclude_write-Holds ended done t v = tt

  pub shut_down-Holds :
      (p : StdinPump) (t : SessionTask Child)
      → IsBounded (record t { pump = p })
      → Holds (shut_down p t)
  shut_down-Holds closing t v = record {
    bound = omega arith;
    full = tt;
    kept = v.kept;
    writer = tt;
  }
  shut_down-Holds waiting t v = tt
  shut_down-Holds (writing c) t v = tt
  shut_down-Holds ended t v = tt

  pub Holds-unless :
      (b : Bool) (o : Option (SessionTask Child))
      → (b ≡ false → Holds o)
      → Holds (if b then none else o)
  Holds-unless true o h = tt
  Holds-unless false o h = h refl

  -- The session changes, and neither what it sent to the child nor its writer does.
  pub same-IsBounded :
      (t : SessionTask Child) (s : Session Child)
      → IsBounded t
      → s.stdin_sent ≡ t.session.stdin_sent
      → s.has_writer ≡ t.session.has_writer
      → IsBounded (record t { session = s })
  same-IsBounded t s v sent w = record {
    bound = v.bound;
    full = v.full;
    kept = rw sent v.kept;
    writer = rw w v.writer;
  }
