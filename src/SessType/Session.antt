-- ===== src/SessType/Session.antt =====
-- cfsmextract/sesstype/sesstype.go: the session, its roles and its channels. A method that changes
-- the `*Session` returns the new one. A new role has the first address that no role has.
pub mod Laws
use dingo_hunter.Prelude.{
  String, Option, none, some, Bool, true, false, List, [], ◌∷◌, Eq, string_eq, lookup, insert,
  length,
}
use dingo_hunter.Definition.{Definition, def_eq}
use dingo_hunter.SessType.Node.{Role, role_eq, Chan, Node}

-- A root may be nil.
pub record Session : Type 0 where
  pub types : List (Role × Option Node)
  pub chans : List (Definition × Chan)
  pub roles : List (String × Role)

unfoldable pub create_session : Session
create_session = record { types = []; chans = []; roles = [] }

unfoldable pub found_role : String → Option Role → Session → Role × Session
found_role name (some r) s = (r, s)
found_role name none s =
    let r : Role = record { name = name; address = length s.roles } in
    (r, record s { roles = insert name r s.roles })

-- `GetRole`
unfoldable pub get_role : Session → String → Role × Session
unfolding found_role
get_role s name = found_role name (lookup name s.roles) s

unfoldable pub add_chan : Session → Definition → Role → Bool → Chan × Session
add_chan s v r extern =
    let ch : Chan = record { def = v; role = r; extern = extern } in
    (ch, record s { chans = insert v ch s.chans })

-- `MakeChan`
unfoldable pub make_chan : Session → Definition → Role → Chan × Session
unfolding add_chan
make_chan s v r = add_chan s v r false

-- `MakeExtChan`
unfoldable pub make_ext_chan : Session → Definition → Role → Chan × Session
unfolding add_chan
make_ext_chan s v r = add_chan s v r true

-- `s.Types[role] = root`
unfoldable pub set_type : Session → Role → Option Node → Session
set_type s r root = record s { types = insert r root s.types }
