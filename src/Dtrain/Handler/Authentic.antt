-- ===== src/Dtrain/Handler/Authentic.antt =====
-- Whose vectors reach a collective.
use go_iroh_experiments.Base.{
  ℕ, ◌≡◌, subst, ap, ◌∙◌, true, false, List, some, inl, inr, arith, Bytes, Bool-cases, Option-cases,
  equal, equal_iff,
}
use go_iroh_experiments.Base.Dict.{lookup}
use go_iroh_experiments.Dtrain.Api.{Api}
use go_iroh_experiments.Dtrain.Frame.{
  AllReduceFrame, ok, Result-cases, read_all_reduce, write_all_reduce,
}
use go_iroh_experiments.Dtrain.Group.{Member, Group, has_member}
use go_iroh_experiments.Dtrain.Exchange.{
  Session, Connection, exchange, exchange_on, read_response, request,
}
use go_iroh_experiments.Dtrain.Handler.{Handler, is_from, admit_frame, admit}

-- A frame that a handler delivers: it names the connection's verified identity, which is a member
-- of the registered group.
pub record IsAuthentic (api : Api) (h : Handler) (find : ℕ → Group) (remote : Bytes) (g : ℕ)
    (f : AllReduceFrame) : Type 0 where
  pub verified : api.is_zero remote ≡ false
  pub named : api.parse_id f.from ≡ some remote
  pub registered : lookup f.group h.groups ≡ some g
  pub member : has_member (find g) remote ≡ true

-- What a member that answered an exchange has shown.
pub record Answered (api : Api) (s : Session) (m : Member) (values : List ℕ) : Type 0 where
  pub conn : Connection
  pub sent : Bytes
  pub frame : AllReduceFrame
  pub rest : Bytes
  pub dialed : s.dial m.addr ≡ some conn
  pub identity : conn.remote ≡ m.id
  pub verified : api.is_zero m.id ≡ false
  pub requested : write_all_reduce api (request api s) ≡ some sent
  pub read : read_all_reduce api (conn.answer sent) ≡ ok (frame, rest)
  pub named : api.parse_id frame.from ≡ some m.id
  pub same : frame.values ≡ values

module _ (api : Api) where
  is_from-named :
      (remote : Bytes) (f : AllReduceFrame)
      → is_from api remote f ≡ true
      → api.parse_id f.from ≡ some remote
  unfolding is_from
  is_from-named remote f h = elim (Option-cases (api.parse_id f.from)) [
    | inl n ↦ absurd (ground arith)
    | inr (from, e) ↦ e ∙ ap some ((equal_iff from remote).0 (rw (e, is_from) at h))
  ]

  -- A handler delivers a frame only where its sender's identity is verified, is the one that the
  -- frame names, and belongs to a member of the group that is registered under the frame's name.
  pub admit-IsAuthentic :
      (h : Handler) (find : ℕ → Group) (remote s : Bytes) (g : ℕ) (f : AllReduceFrame)
      → admit api h find remote s ≡ some (g, f)
      → IsAuthentic api h find remote g f
  unfolding admit admit_frame
  admit-IsAuthentic h find remote s g f e = elim (Bool-cases (api.is_zero remote)) [
    | inl zero_id ↦ absurd (ground arith)
    | inr verified ↦ elim (Result-cases (read_all_reduce api s)) [
      | inr (x, failed) ↦ absurd (ground arith)
      | inl ((f2, rest), read) ↦ elim (Bool-cases (is_from api remote f2)) [
        | inr other ↦ absurd (ground arith)
        | inl from ↦ elim (Option-cases (lookup f2.group h.groups)) [
          | inl unknown ↦ absurd (ground arith)
          | inr (g2, found) ↦ elim (Bool-cases (has_member (find g2) remote)) [
            | inr outside ↦ absurd (ground arith)
            | inl member ↦
                let same : ◌≡◌ {A = ℕ × AllReduceFrame} (g2, f2) (g, f) = ground arith in
                subst (λ (p : ℕ × AllReduceFrame). IsAuthentic api h find remote p.0 p.1) same
                  (record {
                    verified = verified;
                    named = is_from-named remote f2 from;
                    registered = found;
                    member = member;
                  })
          ]
        ]
      ]
    ]
  ]

  response-Answered :
      (remote s : Bytes) (values : List ℕ)
      → read_response api remote s ≡ ok values
      → (frame : AllReduceFrame) × (rest : Bytes) × (read_all_reduce api s ≡ ok (frame, rest))
        × (api.parse_id frame.from ≡ some remote)
        × (frame.values ≡ values)
  unfolding read_response
  response-Answered remote s values h = elim (Result-cases (read_all_reduce api s)) [
    | inr (e, failed) ↦ absurd (ground arith)
    | inl ((frame, rest), read) ↦ elim (Option-cases (api.parse_id frame.from)) [
      | inl unparsed ↦ absurd (ground arith)
      | inr (from, parsed) ↦ elim (Bool-cases (equal from remote)) [
        | inr other ↦ absurd (ground arith)
        | inl named ↦
            (frame, rest, read, parsed ∙ ap some ((equal_iff from remote).0 named), ground arith)
      ]
    ]
  ]

  -- A vector that an exchange with a member returns was read from a connection to the member's
  -- address, whose verified identity is the member's, behind the request of this call, and the
  -- frame that holds it names that identity.
  pub exchange-Answered :
      (s : Session) (m : Member) (values : List ℕ)
      → exchange api s m ≡ ok values
      → Answered api s m values
  unfolding exchange exchange_on
  exchange-Answered s m values h = elim (Bool-cases (api.addr_is_empty m.addr)) [
    | inl empty ↦ absurd (ground arith)
    | inr dialable ↦ elim (Option-cases (s.dial m.addr)) [
      | inl down ↦ absurd (ground arith)
      | inr (conn, dialed) ↦ elim (Bool-cases (api.is_zero conn.remote)) [
        | inl anonymous ↦ absurd (ground arith)
        | inr verified ↦ elim (Bool-cases (equal conn.remote m.id)) [
          | inr other ↦ absurd (ground arith)
          | inl same ↦ elim (Option-cases (write_all_reduce api (request api s))) [
            | inl unwritten ↦ absurd (ground arith)
            | inr (b, written) ↦
                let remote : conn.remote ≡ m.id = (equal_iff conn.remote m.id).0 same in
                let read : read_response api conn.remote (conn.answer b) ≡ ok values =
                  ground arith in
                let (frame, rest, got, named, vector) =
                  response-Answered conn.remote (conn.answer b) values read in
                record {
                  conn = conn;
                  sent = b;
                  frame = frame;
                  rest = rest;
                  dialed = dialed;
                  identity = remote;
                  verified = subst (λ (b : Bytes). api.is_zero b ≡ false) remote verified;
                  requested = written;
                  read = got;
                  named = named ∙ ap some remote;
                  same = vector;
                }
          ]
        ]
      ]
    ]
  ]
