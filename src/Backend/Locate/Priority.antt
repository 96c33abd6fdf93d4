-- ===== src/Backend/Locate/Priority.antt =====
-- What `locate` answers, against a search of the plain list of addresses by priority.
use mpd_virt_macos.Base.{
  ℕ, true, false, List, [], ◌∷◌, ◌++◌, any, Option, none, some, ◌==◌, list_eq, nat_eq, ==_eq,
  if◌then◌else◌, Result, ok, err, ◌≡◌, refl, sym, ap, ◌∙◌, arith, Bool-cases, inl, inr,
}
use mpd_virt_macos.Text.{Text, codes}
use mpd_virt_macos.Vmid.{name}
use mpd_virt_macos.Backend.{Backend, generic, parallels, container, utm, proxmox, other}
use mpd_virt_macos.Backend.World.{World}
use mpd_virt_macos.Backend.Locate.{
  Candidate, LocateError, container_ip, parallels_ip, utm_canonical_ip, add, add_each, add_backend,
  candidates, first_answer, locate,
}
use mpd_virt_macos.Backend.Locate.{add_last, answered}

abbrev or_else : {A : Type 0} → Option A → Option A → Option A
or_else none b = b
or_else (some a) b = some a

or_else_assoc : {A : Type 0} (a b c : Option A) → or_else (or_else a b) c ≡ or_else a (or_else b c)
or_else_assoc none b c = refl
or_else_assoc (some a) b c = refl

or_else_assoc_four :
    {A : Type 0} (a b c d : Option A)
    → or_else (or_else (or_else a b) c) d ≡ or_else a (or_else b (or_else c d))
or_else_assoc_four none b c d = or_else_assoc b c d
or_else_assoc_four (some a) b c d = refl

or_else-none : {A : Type 0} (a : Option A) → or_else a none ≡ a
or_else-none none = refl
or_else-none (some a) = refl

-- The address, if it is one and answers on ssh.
abbrev live : World → Text → Option Text
live w ip = if ip == [] then none else if w.ssh_reachable ip then some ip else none

-- The first address of the list that answers.
abbrev pub first_live : World → List Text → Option Text
first_live w [] = none
first_live w (ip ∷ ips) = or_else (live w ip) (first_live w ips)

first_live-append :
    (w : World) (xs bs : List Text)
    → first_live w (xs ++ bs) ≡ or_else (first_live w xs) (first_live w bs)
first_live-append w [] bs = refl
first_live-append w (a ∷ xs) bs =
    rw (first_live-append w xs bs)
      (sym (or_else_assoc (live w a) (first_live w xs) (first_live w bs)))

-- What the backend itself knows about the box's address.
abbrev pub own_addresses : World → ℕ → Backend → List Text
own_addresses w id container = container_ip w (name id) ∷ []
own_addresses w id parallels = parallels_ip w (name id) ∷ []
own_addresses w id utm = if w.utm_vm_exists (name id) then utm_canonical_ip id ∷ [] else []
own_addresses w id generic = []
own_addresses w id proxmox = []
own_addresses w id (other s) = []

abbrev recorded_address : Option Text → List Text
recorded_address none = []
recorded_address (some ip) = ip ∷ []

-- All addresses on offer, the best first: the backend's, the name's, the `.local` name's, the last.
abbrev pub offered : World → ℕ → Backend → Option Text → List Text
offered w id be last =
    own_addresses w id be
    ++ (w.resolve_host (name id)
        ++ (w.resolve_host (name id ++ codes ".local") ++ recorded_address last))

first_answer-snoc :
    (w : World) (cands : List Candidate) (c : Candidate)
    → first_answer w (cands ++ c ∷ []) ≡ or_else (first_answer w cands) (first_answer w (c ∷ []))
unfolding first_answer
first_answer-snoc w [] c = refl
first_answer-snoc w (d ∷ ds) c = ground (arith, first_answer-snoc w ds c)

-- An address that is a candidate already adds nothing behind the candidates.
first_answer_seen :
    (w : World) (cands : List Candidate) (ip : Text)
    → any (λ c. c.ip == ip) cands ≡ true
    → or_else (first_answer w cands) (live w ip) ≡ first_answer w cands
unfolding first_answer
first_answer_seen w [] ip h = ground arith
first_answer_seen w (d ∷ ds) ip h = elim (Bool-cases (d.ip == ip)) [
  | inl e ↦ rw (sym (==_eq d.ip ip e)) first_seen
  | inr e ↦ ground (arith, first_answer_seen w ds ip (unless e))
]
  where
    unless : (d.ip == ip) ≡ false → any (λ c. c.ip == ip) ds ≡ true
    unless e = ground arith

    first_seen : or_else (first_answer w (d ∷ ds)) (live w d.ip) ≡ first_answer w (d ∷ ds)
    first_seen = ground arith

first_answer-add :
    (w : World) (ip source : Text) (cands : List Candidate)
    → first_answer w (add ip source cands) ≡ or_else (first_answer w cands) (live w ip)
unfolding add first_answer
first_answer-add w ip source cands = elim (Bool-cases (ip == [])) [
  | inl e ↦ rw e (sym (or_else-none (first_answer w cands)))
  | inr e ↦ elim (Bool-cases (any (λ c. c.ip == ip) cands)) [
    | inl seen ↦ ground (arith, first_answer_seen w cands ip seen)
    | inr fresh ↦ rw (e, fresh) (first_answer-snoc w cands (record { ip = ip; source = source }))
  ]
]

first_answer-add_alone :
    (w : World) (ip source : Text) → first_answer w (add ip source []) ≡ first_live w (ip ∷ [])
unfolding first_answer
first_answer-add_alone w ip source =
    first_answer-add w ip source [] ∙ sym (or_else-none (live w ip))

first_answer-add_each :
    (w : World) (ips : List Text) (source : Text) (cands : List Candidate)
    → first_answer w (add_each ips source cands) ≡ or_else (first_answer w cands) (first_live w ips)
unfolding add_each
first_answer-add_each w [] source cands = sym (or_else-none (first_answer w cands))
first_answer-add_each w (ip ∷ ips) source cands =
    first_answer-add_each w ips source (add ip source cands)
    ∙ (ap (λ o. or_else o (first_live w ips)) (first_answer-add w ip source cands)
        ∙ or_else_assoc (first_answer w cands) (live w ip) (first_live w ips))

first_answer-add_backend :
    (w : World) (id : ℕ) (be : Backend)
    → first_answer w (add_backend w id be []) ≡ first_live w (own_addresses w id be)
unfolding add_backend first_answer
first_answer-add_backend w id container =
    first_answer-add_alone w (container_ip w (name id)) (codes "container")
first_answer-add_backend w id parallels =
    first_answer-add_alone w (parallels_ip w (name id)) (codes "prlctl")
first_answer-add_backend w id utm = elim (Bool-cases (w.utm_vm_exists (name id))) [
  | inl e ↦ rw e (first_answer-add_alone w (utm_canonical_ip id) (codes "utm"))
  | inr e ↦ rw e refl
]
first_answer-add_backend w id generic = refl
first_answer-add_backend w id proxmox = refl
first_answer-add_backend w id (other s) = refl

first_answer-add_last :
    (w : World) (last : Option Text) (cands : List Candidate)
    → first_answer w (add_last last cands)
      ≡ or_else (first_answer w cands) (first_live w (recorded_address last))
first_answer-add_last w none cands = sym (or_else-none (first_answer w cands))
first_answer-add_last w (some ip) cands =
    first_answer-add w ip (codes "last") cands ∙ rw (or_else-none (live w ip)) refl

first_answer-candidates :
    (w : World) (id : ℕ) (be : Backend) (last : Option Text)
    → first_answer w (candidates w id be last) ≡ first_live w (offered w id be last)
unfolding candidates
first_answer-candidates w id be last =
    let hosts = w.resolve_host (name id) in
    let locals = w.resolve_host (name id ++ codes ".local") in
    let own = add_backend w id be [] in
    let dns = add_each hosts (codes "dns") own in
    first_answer-add_last w last (add_each locals (codes "mdns") dns)
    ∙ rw
        (
          first_answer-add_each w locals (codes "mdns") dns,
          first_answer-add_each w hosts (codes "dns") own,
          first_answer-add_backend w id be,
          first_live-append w (own_addresses w id be) (hosts ++ (locals ++ recorded_address last)),
          first_live-append w hosts (locals ++ recorded_address last),
          first_live-append w locals (recorded_address last),
        )
        (or_else_assoc_four (first_live w (own_addresses w id be)) (first_live w hosts)
          (first_live w locals) (first_live w (recorded_address last)))

abbrev pub answer : Result LocateError Text → Option Text
answer (ok ip) = some ip
answer (err e) = none

answer-answered :
    (w : World) (cands : List Candidate)
    → answer (answered cands (first_answer w cands)) ≡ first_answer w cands
unfolding first_answer
answer-answered w [] = refl
answer-answered w (c ∷ cs) =
    elim (first_answer w (c ∷ cs)) as (λ o. answer (answered (c ∷ cs) o) ≡ o) [
      | none ↦ refl
      | some ip ↦ refl
    ]

-- `locate` answers the first address on offer, by priority, that is not empty and answers on ssh: the
-- backend's own, those of the box's name, those of its `.local` name, the last recorded one. It
-- fails if and only if none of them does.
pub locate_lem :
    (w : World) (id : ℕ) (be : Backend) (last : Option Text)
    → answer (locate w id be last) ≡ first_live w (offered w id be last)
unfolding locate
locate_lem w id be last =
    answer-answered w (candidates w id be last) ∙ first_answer-candidates w id be last
