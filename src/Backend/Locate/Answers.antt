-- ===== src/Backend/Locate/Answers.antt =====
-- What the address that `locate` answers has shown.
use mpd_virt_macos.Base.{
  ℕ, Bool, true, false, not, ◌&&◌, ◌||◌, Bool-cases, inl, inr, List, [], ◌∷◌, any, Option, none,
  some, ◌==◌, list_eq, nat_eq, ==_self, Result, ok, err, ◌≡◌, refl, sym, arith,
}
use mpd_virt_macos.Text.{Text}
use mpd_virt_macos.Backend.{Backend}
use mpd_virt_macos.Backend.World.{World}
use mpd_virt_macos.Backend.Locate.{LocateError, locate}
use mpd_virt_macos.Backend.Locate.Priority.{answer, first_live, offered, locate_lem}

-- Is it an address, and does it answer on ssh?
abbrev pub answers : World → Text → Bool
answers w ip = not (ip == []) && w.ssh_reachable ip

-- An address that was found is one of those on offer and answers on ssh; if none was found, none of
-- those on offer does.
abbrev pub IsAnswered : World → ℕ → Backend → Option Text → Result LocateError Text → Type 0
IsAnswered w id be last (ok ip) =
    (answers w ip ≡ true) × (any (λ a. a == ip) (offered w id be last) ≡ true)
IsAnswered w id be last (err e) = any (answers w) (offered w id be last) ≡ false

||_true : (b : Bool) → (b || true) ≡ true
||_true true = refl
||_true false = refl

first_live-some :
    (w : World) (ips : List Text) (ip : Text)
    → first_live w ips ≡ some ip
    → (answers w ip ≡ true) × (any (λ a. a == ip) ips ≡ true)
first_live-some w [] ip h = ground arith
first_live-some w (a ∷ ips) ip h = elim (Bool-cases (answers w a)) [
  | inl b ↦ let same : a ≡ ip = ground arith in rw (← same) (b, ground (arith, ==_self a))
  | inr b ↦
      let (shown, there) = first_live-some w ips ip (ground arith) in
      (shown, rw there (||_true (a == ip)))
]

first_live-none :
    (w : World) (ips : List Text) → first_live w ips ≡ none → any (answers w) ips ≡ false
first_live-none w [] h = refl
first_live-none w (a ∷ ips) h = ground (arith, first_live-none w ips)

pub locate-IsAnswered :
    (w : World) (id : ℕ) (be : Backend) (last : Option Text)
    → IsAnswered w id be last (locate w id be last)
locate-IsAnswered w id be last = by_result (locate w id be last) (locate_lem w id be last)
  where
    by_result :
        (r : Result LocateError Text)
        → answer r ≡ first_live w (offered w id be last)
        → IsAnswered w id be last r
    by_result (ok ip) h = first_live-some w (offered w id be last) ip (sym h)
    by_result (err e) h = first_live-none w (offered w id be last) (sym h)
