-- ===== src/Drafts/Table.antt =====
-- The SQL statements of bridge/src/bridge/routes/agent.py on the table `drafts`, whose primary key
-- is `draft_id`. SQLite is not under src/: a table is the list of its rows, and a statement does
-- what its text says.
use open_claw_bridge.Prelude.{
  String, Bool, false, Option, none, some, List, [], ◌∷◌, ◌++◌, str_eq, if◌then◌else◌, is_some,
  find,
}
use open_claw_bridge.Drafts.{Draft}

abbrev pub Table : Type 0
Table = List Draft

abbrev pub has_id : String → Draft → Bool
has_id id d = str_eq d.draft_id id

-- SELECT * FROM drafts WHERE draft_id = ?
abbrev pub select : String → Table → Option Draft
select id t = find (has_id id) t

-- UPDATE drafts SET … WHERE draft_id = ?
abbrev pub update : String → (Draft → Draft) → Table → Table
update id f [] = []
update id f (d ∷ t) = (if has_id id d then f d else d) ∷ update id f t

-- INSERT INTO drafts; a second row with one key is an `IntegrityError`.
abbrev pub insert : Draft → Table → Option Table
insert d t = if is_some (select d.draft_id t) then none else some (t ++ d ∷ [])

abbrev pub is_text : Option String → String → Bool
is_text none s = false
is_text (some t) s = str_eq t s

-- SELECT draft_id FROM drafts WHERE dispatch_message_id = ?
abbrev pub select_dispatch : String → Table → Option Draft
select_dispatch mid t = find (λ d. is_text d.dispatch_message_id mid) t
