-- ===== src/Cli/Trust.antt =====
-- go/internal/cli/catrust.go: does the keychain of this machine trust the root CA?
use mpd_virt_macos.Base.{
  ℕ, Bool, false, not, ◌&&◌, any, List, [], ◌∷◌, ◌==◌, list_eq, nat_eq, if◌then◌else◌, Result, ok,
  err,
}
use mpd_virt_macos.Text.{Text, codes, split, trim_space, has_prefix}
use mpd_virt_macos.Host.{Answer, not_launched, ended, succeeded}
use mpd_virt_macos.Ca.{root_cert_path, root_fingerprint}
use mpd_virt_macos.Machine.{Outside, Failure, Run, pure, ◌>>=◌, attempt}
use mpd_virt_macos.Machine.Exec.{capture}

drop : Text → Text → Text
drop [] s = s
drop (c ∷ p) [] = []
drop (c ∷ p) (d ∷ s) = drop p s

to_upper_rune : ℕ → ℕ
to_upper_rune c =
    if b'a' == c
    then b'A'
    else if b'b' == c
    then b'B'
    else if b'c' == c
    then b'C'
    else if b'd' == c
    then b'D'
    else if b'e' == c
    then b'E'
    else if b'f' == c
    then b'F'
    else c

to_upper : Text → Text
unfolding to_upper_rune
to_upper [] = []
to_upper (c ∷ s) = to_upper_rune c ∷ to_upper s

-- Does a line of `find-certificate -Z` name another digest? The digests are in hex.
unfoldable pub names_other : Text → Text → Bool
unfolding trim_space has_prefix drop to_upper
names_other want line =
    let got = to_upper (trim_space (drop (codes "SHA-1 hash:") (trim_space line))) in
    has_prefix (codes "SHA-1 hash:") (trim_space line) && (not (got == []) && not (got == want))

abbrev find_certificate : List Text
find_certificate =
    codes "security"
    ∷ codes "find-certificate"
    ∷ codes "-a"
    ∷ codes "-c"
    ∷ codes "mpd Root CA"
    ∷ codes "-Z"
    ∷ codes "/Library/Keychains/System.keychain"
    ∷ []

abbrev is_stale : Text → Answer → Bool
is_stale want (not_launched e) = false
is_stale want (ended r) =
    if succeeded (ended r) then any (names_other want) (split b'\n' r.stdout) else false

abbrev pub stale_for : Outside → Result Failure Text → Run Bool
stale_for o (err e) = pure false
stale_for o (ok want) = capture o find_certificate >>= λ a. pure (is_stale want a)

-- `staleCAPresent`
unfoldable pub stale_ca_present : Outside → Run Bool
unfolding root_fingerprint capture attempt split names_other
stale_ca_present o = attempt (root_fingerprint o) (stale_for o)

pub data Trust : Type 0 where
  trusted : Trust
  not_trusted : Bool → Trust

-- `checkCATrust`: what it prints, and whether it asks to remove a stale certificate.
unfoldable pub check_ca_trust : Outside → Run Trust
unfolding capture stale_ca_present root_cert_path ◌>>=◌
check_ca_trust o = do
  a ← capture o (
      codes "security"
      ∷ codes "verify-cert"
      ∷ codes "-c"
      ∷ o.path_text (root_cert_path o.root)
      ∷ [])
  if succeeded a then pure trusted else (stale_ca_present o >>= λ stale. pure (not_trusted stale))

-- `reportCATrustStore`: is the root CA in a keychain? It only prints the answer.
unfoldable pub report_ca_trust_store : Outside → Run Bool
unfolding capture ◌>>=◌
report_ca_trust_store o = do
  a ←
      capture o
        (codes "security" ∷ codes "find-certificate" ∷ codes "-c" ∷ codes "mpd Root CA" ∷ [])
  pure (succeeded a)
