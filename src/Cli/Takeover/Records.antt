-- ===== src/Cli/Takeover/Records.antt =====
-- What a takeover leaves on this machine.
use mpd_virt_macos.Base.{
  ℕ, true, false, Result, ok, err, ◌≡◌, ◌∙◌, ap, sym, inl, inr, Result-cases, refl, list_eq, nat_eq,
}
use mpd_virt_macos.Text.{Text}
use mpd_virt_macos.Fs.{Fs, is_under}
use mpd_virt_macos.Paths.{vm_env}
use mpd_virt_macos.Registry
use mpd_virt_macos.Registry.RoundTrip.{IsEntry, load-save}
use mpd_virt_macos.Registry.Frame.{load_ok-SameAt}
use mpd_virt_macos.Sshconfig
use mpd_virt_macos.Sshconfig.{contains_block}
use mpd_virt_macos.Sshconfig.File.{write_lem}
use mpd_virt_macos.Sshconfig.Apart.{write_apart}
use mpd_virt_macos.Backend.{Backend}
use mpd_virt_macos.Host.{Target}
use mpd_virt_macos.Machine.{Outside, Mac, Failure, io_failed, io, ◌>>◌, best_effort}
use mpd_virt_macos.Machine.Keeps.{Keeps, keeps_rules}
use mpd_virt_macos.Machine.Untouched.{
  FilesAre, capture_untouched, call_untouched, ssh_untouched, stream_untouched, check_untouched,
  line_untouched, succeed_untouched,
}
use mpd_virt_macos.Machine.Outcome.{passed, refused, io_ok}
use mpd_virt_macos.Proxy.Client
use mpd_virt_macos.Ca.{
  is_ok, root_fingerprint, or_failed, load_or_generate_root, load_or_generate_vm,
}
use mpd_virt_macos.Cli.Reach.{wire, wire_if, setup_reachability}
use mpd_virt_macos.Cli.Trust.{stale_for, stale_ca_present, check_ca_trust}
use mpd_virt_macos.Cli.Takeover.Checked.{checks, all_pass, conforms_lem}
use mpd_virt_macos.Cli.Takeover.{
  entry_for, box_target, record_box, run_takeover, conforms, passes, provision,
}
use mpd_virt_macos.Base.{Option, none, some}

module _ (o : Outside) (fs : Fs) where
  wire_untouched :
      (t : Target) (id : ℕ) (ip : Text) (r : Result Failure Text)
      → Keeps (FilesAre fs) (wire_if o t id ip r)
  unfolding wire Client.add
  wire_untouched t id ip (err e) = search keeps_rules
  wire_untouched t id ip (ok k) =
      search (keeps_rules, stream_untouched, line_untouched, call_untouched) depth 20 fits 4000

  reach_untouched :
      (t : Target) (id : ℕ) (ip : Text) → Keeps (FilesAre fs) (setup_reachability o t id ip)
  unfolding setup_reachability Client.pubkey
  reach_untouched t id ip = search (keeps_rules, call_untouched, wire_untouched)

  or_failed_untouched :
      {A : Type 0} (words : Text) (a : Option A) → Keeps (FilesAre fs) (or_failed words a)
  or_failed_untouched words none = search keeps_rules
  or_failed_untouched words (some a) = search keeps_rules

  stale_untouched : (r : Result Failure Text) → Keeps (FilesAre fs) (stale_for o r)
  stale_untouched (err e) = search keeps_rules
  stale_untouched (ok want) = search (keeps_rules, capture_untouched)

  trust_untouched : Keeps (FilesAre fs) (check_ca_trust o)
  unfolding check_ca_trust stale_ca_present root_fingerprint
  trust_untouched =
      search (keeps_rules, capture_untouched, stale_untouched, or_failed_untouched) depth 20 fits
        4000

  passes_untouched :
      (t : Target) (remote words : Text) → Keeps (FilesAre fs) (passes o t remote words)
  unfolding passes
  passes_untouched t remote words = search (keeps_rules, ssh_untouched, succeed_untouched)

  conforms_untouched : (t : Target) (id : ℕ) → Keeps (FilesAre fs) (conforms o t id)
  unfolding conforms
  conforms_untouched t id =
      search (keeps_rules, check_untouched, line_untouched, passes_untouched) depth 20 fits 4000

  wired_untouched :
      (t : Target) (id : ℕ) (ip : Text)
      → Keeps
          (FilesAre fs)
          (best_effort (setup_reachability o t id ip) >> best_effort (check_ca_trust o))
  wired_untouched t id ip = search (keeps_rules, reach_untouched, trust_untouched)

-- The box is on record: `Load` gives the entry, and the ssh config has its block.
abbrev pub OnRecord : Outside → ℕ → Text → Text → Backend → Fs → Type 0
OnRecord o id ip user be fs =
    (Registry.load o.root id fs ≡ ok (entry_for id ip user be))
    × (contains_block o.ssh_config id fs ≡ true)

recorded :
    (o : Outside) (id : ℕ) (ip user : Text) (be : Backend) (m : Mac)
    → IsEntry (entry_for id ip user be)
    → is_under (vm_env o.root id) o.ssh_config ≡ false
    → (record_box o id ip user be m).1 ≡ ok tt
    → OnRecord o id ip user be (record_box o id ip user be m).0.files
unfolding record_box
recorded o id ip user be m w apart h =
    let e = entry_for id ip user be in
    let save = io io_failed (Registry.save o.root e) in
    let (_, saved, same, written) =
      passed save (λ _. io io_failed (Sshconfig.write o.ssh_config id ip user)) m tt h in
    let (save_ok, after) = io_ok io_failed (Registry.save o.root e) m tt saved in
    let (write_ok, final) =
      io_ok io_failed (Sshconfig.write o.ssh_config id ip user) (save m).0 tt written in
    rw (same, final, after)
      (
        load_ok-SameAt o.root id _ _
            (write_apart (vm_env o.root id) o.ssh_config apart id ip user _) e
            (load-save e w o.root m.files save_ok),
        (write_lem o.ssh_config id ip user (Registry.save o.root e m.files).0
            (rw after at write_ok)).3,
      )

-- For an entry that can be stored, and an ssh config that is neither the env file of the box nor below
-- it: when `runTakeover` succeeds, `Load` gives the entry of the box with the address, the user and
-- the backend, and the ssh config has its block.
pub run_takeover_lem :
    (o : Outside) (id : ℕ) (ip user : Text) (be : Backend) (m : Mac)
    → IsEntry (entry_for id ip user be)
    → is_under (vm_env o.root id) o.ssh_config ≡ false
    → (run_takeover o id ip user be m).1 ≡ ok tt
    → OnRecord o id ip user be (run_takeover o id ip user be m).0.files
unfolding run_takeover
run_takeover_lem o id ip user be m w apart h =
    let t = box_target ip user in
    let wire = best_effort (setup_reachability o t id ip) >> best_effort (check_ca_trust o) in
    let note = record_box o id ip user be in
    let last = note >> wire in
    let third = provision o t id >> last in
    let second = load_or_generate_vm o id >> third in
    let first = load_or_generate_root o >> second in
    let (_, _, e1, h1) = passed (conforms o t id) (λ _. first) m tt h in
    let m1 = (conforms o t id m).0 in
    let (_, _, e2, h2) = passed (load_or_generate_root o) (λ _. second) m1 tt h1 in
    let m2 = (load_or_generate_root o m1).0 in
    let (_, _, e3, h3) = passed (load_or_generate_vm o id) (λ _. third) m2 tt h2 in
    let m3 = (load_or_generate_vm o id m2).0 in
    let (_, _, e4, h4) = passed (provision o t id) (λ _. last) m3 tt h3 in
    let m4 = (provision o t id m3).0 in
    let (_, noted, e5, h5) = passed note (λ _. wire) m4 tt h4 in
    let kept = (wired_untouched o (note m4).0.files t id ip).at (note m4).0 refl in
    rw (e1, e2, e3, e4, e5, kept) (recorded o id ip user be m4 w apart noted)

-- When the answers of the box do not pass the checks, which are that it can be reached, that its
-- `hostname` is the name of the box, that `sudo` asks for no password, that it is Debian trixie and that
-- systemd-resolved is active: `runTakeover` ends with an error, and no file has changed.
pub run_takeover_refused :
    (o : Outside) (id : ℕ) (ip user : Text) (be : Backend) (m : Mac)
    → all_pass o (box_target ip user) m.log (checks id) ≡ false
    → (e : Failure) × ((run_takeover o id ip user be m).1 ≡ err e)
      × ((run_takeover o id ip user be m).0.files ≡ m.files)
unfolding run_takeover
run_takeover_refused o id ip user be m h =
    let t = box_target ip user in
    let rest =
      load_or_generate_root o
      >> (load_or_generate_vm o id
          >> (provision o t id
              >> (record_box o id ip user be
                  >> (best_effort (setup_reachability o t id ip)
                      >> best_effort (check_ca_trust o))))) in
    elim (Result-cases (conforms o t id m).1) [
      | inl (x, e) ↦ absurd (never (ap is_ok (sym e) ∙ (conforms_lem o t id m ∙ h)))
      | inr (x, e) ↦
          rw (refused (conforms o t id) (λ _. rest) m x e)
            (x, refl, (conforms_untouched o m.files t id).at m refl)
    ]
  where
    never : true ≡ false → ⊥
    never k = cc
