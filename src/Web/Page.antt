-- ===== src/Web/Page.antt =====
-- The names on the page of anon_http_handler (src/greynet.cpp), and where they come from.
use greynet.Base.{
  Str, codes, ◌≡◌, refl, ◌∙◌, ap, sym, true, none, some, List, [], ◌∷◌, ◌++◌, str_eq,
}
use mathlib.Core.List.{append_assoc}
use greynet.Json.{Members}
use greynet.Messages.{Message}
use greynet.Platform.{Env, State, Conn, Call, Log, ok, ◌>>=◌}
use greynet.Handshake.{expect_ident}
use greynet.Handshake.Ident.{IsIdent, Accepted, expect_ident_complete}
use greynet.Web.{Request, read_form, row, rows, page_head, page, render, anon_http_handler}

-- A text that stands in another.
abbrev pub Within : Str → Str → Type 0
Within part whole = (a : Str) × (b : Str) × (whole ≡ a ++ (part ++ b))

rows-append : (xs ys : List Str) → rows (xs ++ ys) ≡ rows xs ++ rows ys
unfolding rows
rows-append [] ys = refl
rows-append (x ∷ xs) ys =
    ap (λ t. row x ++ t) (rows-append xs ys) ∙ sym (append_assoc (row x) (rows xs) (rows ys))

page-row : (xs ys : List Str) (name : Str) → Within (row name) (page (xs ++ name ∷ ys))
unfolding page
page-row xs ys name =
    let end : Str = codes "</table>" ++ 10 ∷ [] in
    (
      page_head ++ rows xs,
      rows ys ++ end,
      rw (rows-append xs (name ∷ ys)) (unfold rows in (simp append_assoc)),
    )

-- The router lists the name that a connection was given last.
pub record ListsNames (env : Env) : Type 0 where
  pub lists :
      (c : Conn) (name : Str) (log : Log)
      → (xs : List Str) × (ys : List Str) × (env.connected_names (Call.set_name c name ∷ log)
          ≡ xs ++ name ∷ ys)

module _ (env : Env) where
  Accepted-log :
      (conn : Conn) (name : Str) (s t : State)
      → Accepted env conn true name s t
      → (log : Log) × (t.log ≡ Call.set_name conn name ∷ log)
  Accepted-log conn name s t (jid, j, e) = (_, ap (λ (u : State). u.log) e)

  -- Where the router lists the name that a connection was given last, and we are logged in to XMPP:
  -- whatever name a peer that connected to us gives in an IDENT in good order, be it HTML, the peer is
  -- let in, and the page that the web interface then returns for a request without a form or a ping
  -- has the name in a row of its table, character for character.
  pub expect_ident-anon_http_handler :
      (msg : Message) (conn : Conn) (s : State) (o : Members) (name jid : Str) (req : Request)
      → IsIdent env msg true s o name
      → s.jbot_jid ≡ some jid
      → ListsNames env
      → read_form req ≡ none
      → req.getvar (codes "pingall") ≡ none
      → (html : Str) × (u : State) × ((expect_ident env msg conn true s >>= λ t.
            anon_http_handler env req t)
          ≡ ok (html, u))
        × Within (codes "<tr><td>" ++ (name ++ codes "</td><td>todo</td></tr>")) html
  unfolding anon_http_handler render row
  expect_ident-anon_http_handler msg conn s o name jid req i j law form ping =
      let (t, run, a) = expect_ident_complete env msg conn true s o name jid i j in
      let (log, l) = Accepted-log conn name s t a in
      let (xs, ys, e) = law.lists conn name log in
      let names : env.connected_names t.log ≡ xs ++ name ∷ ys = rw l e in
      let (html, u) = render env t in
      (html, u, rw run (rw (form, ping) refl), rw names (page-row xs ys name))
