-- ===== src/Relay/ChatDb.antt =====
-- relays/imessage/src/relay/chatdb.py and the inbound half of main.py: the cursor over the Messages
-- database and the forwarding of what it yields.
pub mod Forwarded
use open_claw_bridge.Prelude.{
  ℕ, max, String, Bool, true, false, not, ◌&&◌, ◌||◌, Option, none, some, List, [], ◌∷◌, ◌++◌, ltb,
  if◌then◌else◌, is_some, filter,
}

-- A row of the join, in the order of its ROWID; the other columns are one text.
pub record Message : Type 0 where
  pub rowid : ℕ
  pub is_from_me : Bool
  pub text : Option String
  pub chat_guid : String

-- The file of the last ROWID: missing, not a number or not readable, or what it holds.
pub data State : Type 0 where
  missing : State
  unreadable : State
  holds : (rowid : ℕ) → State

-- `database` is chat.db, or none while it cannot be opened or read.
pub record Cursor : Type 0 where
  pub state : State
  pub database : Option (List Message)

abbrev pub rowid_of : State → ℕ
rowid_of missing = 0
rowid_of unreadable = 0
rowid_of (holds n) = n

-- `read_last_seen`
abbrev pub read_last_seen : Cursor → ℕ
read_last_seen c = rowid_of c.state

abbrev pub write_last_seen : ℕ → Cursor → Cursor
write_last_seen n c = record c { state = holds n }

-- `SELECT COALESCE(MAX(ROWID), 0) FROM message`
abbrev pub max_rowid : ℕ → List Message → ℕ
max_rowid m [] = m
max_rowid m (r ∷ rs) = max_rowid (max m r.rowid) rs

-- `bootstrap_to_tail`, under the test of `main` that the state file is missing.
unfoldable pub bootstrap : Cursor → Cursor
bootstrap c = elim c.state [
  | holds n ↦ c
  | unreadable ↦ c
  | missing ↦ elim c.database [ none ↦ c | some rows ↦ write_last_seen (max_rowid 0 rows) c ]
]

abbrev pub is_inbound : ℕ → Message → Bool
is_inbound last r = ltb last r.rowid && not r.is_from_me && is_some r.text

-- `poll_new`, when its iterator is exhausted and the state file can be written: what it yields, and the
-- cursor after it.
unfoldable pub poll_new : Cursor → List Message × Cursor
poll_new c = elim c.database [
  | none ↦ ([], c)
  | some all ↦
      let last = read_last_seen c in
      let rows = filter (is_inbound last) all in
      let top = max_rowid last rows in (rows, if ltb last top then write_last_seen top c else c)
]

-- How a post of `post_inbound` ends: it returns, it raises a `BridgeClientError`, or another exception,
-- such as of a connection that breaks off or of an answer that is no JSON.
pub data Post : Type 0 where
  accepted : Post
  refused : Post
  broken : Post

-- What a turn meets: the ends of its posts, and whether the write of the state file raises.
pub record Turn : Type 0 where
  pub post : Message → Post
  pub write_fails : Bool

-- What comes before a turn: rows are added behind the others, or the database cannot be opened or read.
pub data Change : Type 0 where
  grows : List Message → Turn → Change
  locked : Change

-- The loop over `poll_new` with `_forward_inbound`: the messages that are posted, and whether all were.
-- A `BridgeClientError` is logged and no more; another exception ends the loop.
unfoldable pub forward_inbound : (Message → Post) → List Message → List Message × Bool
forward_inbound post [] = ([], true)
forward_inbound post (m ∷ ms) =
    let (posted, all) = forward_inbound post ms in
    elim (post m) [
      | accepted ↦ (m ∷ posted, all)
      | refused ↦ (m ∷ posted, all)
      | broken ↦ (m ∷ [], false)
    ]

-- What one turn posts, and whether an exception ended it.
pub record Batch : Type 0 where
  pub posted : List Message
  pub aborted : Bool

-- One turn of `run_inbound_loop`. An exception leaves the state file as it was.
unfoldable pub inbound_turn : Turn → Cursor → Batch × Cursor
unfolding poll_new forward_inbound
inbound_turn turn c =
    let (msgs, c') = poll_new c in
    let (posted, all) = forward_inbound turn.post msgs in
    let last = read_last_seen c in
    let aborted = not all || (turn.write_fails && ltb last (max_rowid last msgs)) in
    (record { posted = posted; aborted = aborted }, if aborted then c else c')

-- The loop, on the rows of the database and on what comes before each turn: what the turns post, and the
-- last state.
unfoldable pub inbound_loop : State → List Message → List Change → List Batch × State
unfolding inbound_turn
inbound_loop state rows [] = ([], state)
inbound_loop state rows (grows new turn ∷ cs) =
    let (batch, c) = inbound_turn turn (record { state = state; database = some (rows ++ new) }) in
    let (more, last) = inbound_loop c.state (rows ++ new) cs in (batch ∷ more, last)
inbound_loop state rows (locked ∷ cs) =
    let (more, last) = inbound_loop state rows cs in
    (record { posted = []; aborted = false } ∷ more, last)
