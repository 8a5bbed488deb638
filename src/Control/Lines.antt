-- ===== src/Control/Lines.antt =====
-- src/bin/control_server.rs: the lines that a console receives.
use rust_hotpath_ipc.Prelude.{
  ℕ, ◌≡◌, ◌≢◌, refl, sym, ◌∙◌, true, false, Option, none, some, List, [], ◌∷◌, ◌++◌, append_assoc,
  append-nil, arith, ◌==◌, if◌then◌else◌,
}
use rust_hotpath_ipc.Prelude.Text.{Text, codes}
use rust_hotpath_ipc.Vm.Listing.Lines.{lines, lines-append}
use rust_hotpath_ipc.Control.Hub.{
  Subscriber, Server, send_all, log_line, subscribe, one_line, frame,
}

-- What happens to the clients: a line, a new one, and one that goes away.
pub data Feed : Type 0 where
  says : Text → Feed
  joins : ℕ → Feed
  leaves : ℕ → Feed

unfoldable pub drop_receiver : ℕ → List Subscriber → List Subscriber
drop_receiver id [] = []
drop_receiver id (s ∷ ss) =
    record s { open_ = if s.id == id then false else s.open_ } ∷ drop_receiver id ss

unfoldable pub feed : Feed → Server → Server
unfolding log_line subscribe drop_receiver
feed (says line) s = log_line line s
feed (joins id) s = subscribe id s
feed (leaves id) s = record s { subscribers = drop_receiver id s.subscribers }

unfoldable pub feed_all : List Feed → Server → Server
unfolding feed
feed_all [] s = s
feed_all (e ∷ es) s = feed_all es (feed e s)

-- The first client with the id.
unfoldable pub client : ℕ → List Subscriber → Option Subscriber
client id [] = none
client id (s ∷ ss) = if s.id == id then some s else client id ss

unfoldable pub said : List Feed → List Text
said [] = []
said (says line ∷ es) = line ∷ said es
said (joins id ∷ es) = said es
said (leaves id ∷ es) = said es

unfoldable pub Stays : ℕ → List Feed → Type 0
Stays id [] = Unit {0}
Stays id (says line ∷ es) = Stays id es
Stays id (joins j ∷ es) = Stays id es
Stays id (leaves j ∷ es) = (j ≢ id) × Stays id es

module _ (id : ℕ) {c : Subscriber} (open_ : c.open_ ≡ true) where
  client-send_all :
      (line : Text) (ss : List Subscriber)
      → client id ss ≡ some c
      → client id (send_all line ss) ≡ some (record c { inbox = c.inbox ++ (line ∷ []) })
  unfolding client send_all
  client-send_all line [] h = cc
  client-send_all line (s ∷ ss) h = ground (arith, client-send_all line ss)

  client-append :
      (ss more : List Subscriber) → client id ss ≡ some c → client id (ss ++ more) ≡ some c
  unfolding client
  client-append [] more h = cc
  client-append (s ∷ ss) more h = ground (arith, client-append ss more)

  client-drop_receiver :
      (j : ℕ) (ss : List Subscriber)
      → j ≢ id
      → client id ss ≡ some c
      → client id (drop_receiver j ss) ≡ some c
  unfolding client drop_receiver
  client-drop_receiver j [] ne h = cc
  client-drop_receiver j (s ∷ ss) ne h = ground (arith, client-drop_receiver j ss)

-- A client that has subscribed and stays, whoever else comes and goes, has in its channel what it
-- had and then every line that was logged, in order and once each.
pub client-feed_all :
    (id : ℕ) (es : List Feed) (s : Server) {c : Subscriber}
    → c.open_ ≡ true
    → client id s.subscribers ≡ some c
    → Stays id es
    → client id (feed_all es s).subscribers ≡ some (record c { inbox = c.inbox ++ said es })
unfolding feed_all feed log_line subscribe said Stays
client-feed_all id [] s {c} o h w =
    let same = sym (append-nil c.inbox) in h ∙ (λ i. some (record c { inbox = same i }))
client-feed_all id (says line ∷ es) s {c} o h w =
    client-feed_all id es (log_line line s) o (client-send_all id o line s.subscribers h) w
    ∙ (λ i. some (record c { inbox = append_assoc c.inbox (line ∷ []) (said es) i }))
client-feed_all id (joins j ∷ es) s o h w =
    client-feed_all id es (subscribe j s) o (client-append id o s.subscribers _ h) w
client-feed_all id (leaves j ∷ es) s o h w =
    client-feed_all id es (record s { subscribers = drop_receiver j s.subscribers }) o
      (client-drop_receiver id o j s.subscribers w.0 h) w.1

lines-one_line : (t : Text) → lines (one_line t) ≡ 0
unfolding lines one_line
lines-one_line [] = refl
lines-one_line (c ∷ t) = ground (arith, lines-one_line t)

-- Whatever bytes a line holds, what is written for it ends two lines, the event's own and the
-- empty one behind it: one event for each line.
pub lines-frame : (t : Text) → lines (frame t) ≡ 2
unfolding frame
lines-frame t =
    lines-append (codes "data: ") (one_line t ++ codes "\n\n")
    ∙ rw (lines-append (one_line t) (codes "\n\n"), lines-one_line t) (unfold lines in refl)
