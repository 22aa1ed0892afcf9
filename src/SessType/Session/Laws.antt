-- ===== src/SessType/Session/Laws.antt =====
-- The roles of a session (cfsmextract/sesstype/sesstype.go).
use dingo_hunter.Prelude.{
  String, ◌≡◌, ◌≢◌, some, arith, ◌==◌, string_eq, lookup, lookup-insert, length, Option-cases,
  if◌then◌else◌, inl, inr, Bool-cases, beq_self,
}
use dingo_hunter.Definition.{def_eq}
use dingo_hunter.SessType.Node.{Role, role_eq}
use dingo_hunter.SessType.Session.{Session, create_session, get_role}

-- Every role is stored under its own name.
abbrev pub IsInterned : Session → Type 0
IsInterned s = (name : String) (r : Role) → lookup name s.roles ≡ some r → r.name ≡ name

pub create_session-IsInterned : IsInterned create_session
unfolding create_session
create_session-IsInterned name r h = cc

get_role-name : (s : Session) (name : String) → IsInterned s → (get_role s name).0.name ≡ name
unfolding get_role
get_role-name s name h = elim (Option-cases (lookup name s.roles)) [
  | inl e ↦ rw (e, get_role)
  | inr (r, e) ↦ rw (e, get_role) (h name r e)
]

get_role-lookup :
    (s : Session) (name other : String)
    → lookup other (get_role s name).1.roles
      ≡ (if name == other then some (get_role s name).0 else lookup other s.roles)
unfolding get_role
get_role-lookup s name other = elim (Option-cases (lookup name s.roles)) [
  | inl e ↦
      rw (e, get_role)
        (lookup-insert name other (record { name = name; address = length s.roles }) s.roles)
  | inr (r, e) ↦ ground (arith, string_eq.beq_iff name other)
]

pub get_role_frame :
    (s : Session) (name : String)
    → ((get_role s name).1.types ≡ s.types) × ((get_role s name).1.chans ≡ s.chans)
unfolding get_role
get_role_frame s name = ground arith

get_role-IsInterned : (s : Session) (name : String) → IsInterned s → IsInterned (get_role s name).1
get_role-IsInterned s name h other r found = elim (Bool-cases (name == other)) [
  | inl same ↦
      ground
        (arith, string_eq.beq_iff name other, get_role-name s name h, get_role-lookup s name other)
  | inr differ ↦ h other r (ground (arith, get_role-lookup s name other))
]

get_role_again : (s : Session) (name : String) → get_role (get_role s name).1 name ≡ get_role s name
unfolding get_role
get_role_again s name = elim (Option-cases (lookup name s.roles)) [
  | inl e ↦
      let r : Role = record { name = name; address = length s.roles } in
      rw (e, get_role)
        (rw (lookup-insert name name r s.roles, get_role) (rw (beq_self name, get_role)))
  | inr (r, e) ↦ rw (e, get_role) (rw (e, get_role))
]

-- `GetRole` returns the role of the given name, keeps every role under its own name, and leaves
-- the other roles, the types and the channels as they are; asked again it returns the same role
-- and changes nothing.
pub get_role_interns :
    (s : Session) (name other : String)
    → IsInterned s
    → name ≢ other
    → ((get_role s name).0.name ≡ name)
      × IsInterned (get_role s name).1
      × (get_role (get_role s name).1 name ≡ get_role s name)
      × (lookup other (get_role s name).1.roles ≡ lookup other s.roles)
      × ((get_role s name).1.types ≡ s.types)
      × ((get_role s name).1.chans ≡ s.chans)
get_role_interns s name other h ne = (
  get_role-name s name h,
  get_role-IsInterned s name h,
  get_role_again s name,
  ground (arith, get_role-lookup s name other, string_eq.beq_iff name other),
  (get_role_frame s name).0,
  (get_role_frame s name).1,
)
