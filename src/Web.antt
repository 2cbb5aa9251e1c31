-- ===== src/Web.antt =====
-- src/greynet.cpp, the web interface: anon_http_handler and authed_http_handler.
pub mod Page
pub mod Keeps
pub mod Token
pub mod Json
use greynet.Base.{
  ℕ, Str, codes, Bool, true, false, ◌&&◌, Option, none, some, List, [], ◌∷◌, ◌++◌, ◌==◌, str_eq,
  if◌then◌else◌,
}
use greynet.Json.{Values}
use greynet.Messages.{ping_message}
use greynet.Platform.{
  Env, State, Call, Result, ok, fault, uncaught_exception, null_pointer, emit, or_fault, ◌>>=◌,
}
use greynet.Jbot.{Gloox}
use greynet.Jbot.Roster.{Contact}
use greynet.Jbot.Client.{Session, get_roster}

-- playdar's request: the variables of its body and of its query, and the parts of its path.
pub record Request : Type 0 where
  pub postvar : Str → Option Str
  pub getvar : Str → Option Str
  pub parts : List Str

-- The three variables of the form for a manual connection.
pub record Form : Type 0 where
  pub token : Str
  pub addr : Str
  pub port : Str

unfoldable pub read_form : Request → Option Form
read_form req = elim (req.postvar (codes "formtoken")) [
  | none ↦ none
  | some token ↦ elim (req.postvar (codes "newaddr")) [
    | none ↦ none
    | some addr ↦ elim (req.postvar (codes "newport")) [
      | none ↦ none
      | some port ↦ some (record { token = token; addr = addr; port = port })
    ]
  ]
]

-- A row of the table of connections.
unfoldable pub row : Str → Str
row name = codes "<tr><td>" ++ (name ++ codes "</td><td>todo</td></tr>")

unfoldable pub rows : List Str → Str
unfolding row
rows [] = []
rows (name ∷ names) = row name ++ rows names

abbrev pub page_head : Str
page_head =
    codes "<h2>Greynet Settings</h2>"
    ++ (codes "<p>Connections are established automatically whenever a "
        ++ (codes "playdar-greynet capable peer comes online via XMPP</p>"
            ++ (codes "<h3>Current Connections</h3>"
                ++ (codes "<table>"
                    ++ (codes "<tr style=\"font-weight:bold;\">"
                        ++ codes "<td>Username</td><td>Options</td></tr>")))))

unfoldable pub page : List Str → Str
unfolding rows
page names = page_head ++ (rows names ++ (codes "</table>" ++ 10 ∷ []))

-- `req.parts()[1] == "get_roster"`, of a path that has such a part.
unfoldable pub asks_roster : List Str → Bool
unfolding str_eq
asks_roster (_ ∷ part ∷ _) = part == codes "get_roster"
asks_roster _ = false

unfoldable pub jsonp : Option Str → Str → Str
jsonp none text = text
jsonp (some callback) text = callback ++ (codes "(" ++ (text ++ (codes ");" ++ 10 ∷ [])))

module _ (env : Env) where
  open env use {parse_ipv4, parse_port, token_valid, connected_names, uuid}

  -- The block under the first test, past the token.
  unfoldable pub connect_manually : Form → State → Result State
  connect_manually form s = do
    port ← or_fault (parse_port form.port) uncaught_exception
    address ← or_fault (parse_ipv4 form.addr) uncaught_exception
    ok (emit (Call.connect_to_remote address port []) s)

  unfoldable pub handle_form : Option Form → State → Result State
  unfolding connect_manually
  handle_form none s = ok s
  handle_form (some form) s =
      let t = emit (Call.consume_formtoken form.token) s in
      if token_valid t.log form.token then connect_manually form t else ok t

  unfoldable pub ping_all : Option Str → State → State
  ping_all none s = s
  ping_all (some _) s =
      let t = emit Call.gen_uuid s in emit (Call.send_all (ping_message (uuid t.log))) t

  -- The page, and the token for the next form.
  unfoldable pub render : State → Str × State
  unfolding page
  render s =
      let t = emit Call.gen_uuid s in
      (page (connected_names s.log), emit (Call.add_formtoken (uuid t.log)) t)

  unfoldable pub anon_http_handler : Request → State → Result (Str × State)
  unfolding handle_form ping_all render
  anon_http_handler req s = do
    t ← handle_form (read_form req) s
    ok (render (ping_all (req.getvar (codes "pingall")) t))

  -- The response, if the request is handled; `jbot` is `m_jbot`, whose roster is reached through its
  -- client.
  unfoldable pub authed_http_handler :
      Gloox → (Str → Bool) → List Contact → Option Session → Request → Result (Option Str)
  unfolding asks_roster jsonp
  authed_http_handler g connected roster jbot req =
      if asks_roster req.parts
      then (do
        b ← or_fault jbot null_pointer
        a ← get_roster connected g roster b
        ok (some (jsonp (req.getvar (codes "jsonp")) (env.write_array a))))
      else ok none
