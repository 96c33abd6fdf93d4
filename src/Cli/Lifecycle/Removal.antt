-- ===== src/Cli/Lifecycle/Removal.antt =====
-- What is left after a box is deleted.
use mpd_virt_macos.Base.{ℕ, Bool, false, ok, ◌≡◌, refl, sym, Result-cases, inl, inr, if◌then◌else◌}
use mpd_virt_macos.Fs.{FilePath, Fs, is_under, read_file}
use mpd_virt_macos.Fs.Laws.{SameAt, read_file-SameAt}
use mpd_virt_macos.Paths.{vm_dir}
use mpd_virt_macos.Vmid.{pad}
use mpd_virt_macos.Vmid.Bounds.{IsBoxId}
use mpd_virt_macos.Registry
use mpd_virt_macos.Registry.Frame.{remove_outside, exists-remove}
use mpd_virt_macos.Sshconfig
use mpd_virt_macos.Sshconfig.{contains_block}
use mpd_virt_macos.Sshconfig.File.{contains_block-strip}
use mpd_virt_macos.Backend.{Backend}
use mpd_virt_macos.Machine.{Outside, Mac, io_failed, pure, io, ◌>>◌, best_effort}
use mpd_virt_macos.Machine.Outcome.{passed, io_ok}
use mpd_virt_macos.Proxy.Client
use mpd_virt_macos.Backend.Delete
use mpd_virt_macos.Cli.Lifecycle.{delete_box}

-- A file that did not change holds no block that it did not hold.
still_without :
    (path : FilePath) (id : ℕ) (fs fs' : Fs)
    → SameAt path fs fs'
    → contains_block path id fs ≡ false
    → contains_block path id fs' ≡ false
unfolding contains_block
still_without path id fs fs' same h = elim (Result-cases (read_file path fs')) [
  | inl (t, e) ↦ rw e (rw (read_file-SameAt path fs' fs t (sym same.0, sym same.1) e) at h)
  | inr (x, e) ↦ rw e refl
]

-- The two steps on the files.
forgotten :
    (o : Outside) (id : ℕ) (m : Mac)
    → IsBoxId id
    → is_under (vm_dir o.root id) o.ssh_config ≡ false
    → ((io io_failed (Sshconfig.strip o.ssh_config id) >> io io_failed (Registry.remove o.root id))
        m).1
      ≡ ok tt
    → let fs =
        ((io io_failed (Sshconfig.strip o.ssh_config id)
            >> io io_failed (Registry.remove o.root id))
          m).0.files in
      (Registry.exists o.root id fs ≡ false) × (contains_block o.ssh_config id fs ≡ false)
forgotten o id m b apart h =
    let strip = io io_failed (Sshconfig.strip o.ssh_config id) in
    let (_, stripped, same, removed) =
      passed strip (λ _. io io_failed (Registry.remove o.root id)) m tt h in
    let (strip_ok, after) = io_ok io_failed (Sshconfig.strip o.ssh_config id) m tt stripped in
    let (remove_ok, final) = io_ok io_failed (Registry.remove o.root id) (strip m).0 tt removed in
    rw (same, final, after)
      (
        exists-remove o.root id _ (rw after at remove_ok),
        still_without o.ssh_config id _ _
            (remove_outside o.root id (Sshconfig.strip o.ssh_config id m.files).0 o.ssh_config
              apart)
            (contains_block-strip o.ssh_config id m.files b strip_ok),
      )

-- For a box id from 1 to 254 and an ssh config that does not lie in the directory of the box: when
-- the delete command, once confirmed, succeeds, then the registry does not know the box and the ssh
-- config has no block of it, whether or not mpd-proxy answered, the machine was kept, and its
-- destruction worked.
pub delete_box_lem :
    (o : Outside) (id : ℕ) (be : Backend) (keep_vm : Bool) (m : Mac)
    → IsBoxId id
    → is_under (vm_dir o.root id) o.ssh_config ≡ false
    → (delete_box o id be keep_vm m).1 ≡ ok tt
    → (Registry.exists o.root id (delete_box o id be keep_vm m).0.files ≡ false)
      × (contains_block o.ssh_config id (delete_box o id be keep_vm m).0.files ≡ false)
unfolding delete_box
delete_box_lem o id be keep_vm m b apart h =
    let strip = io io_failed (Sshconfig.strip o.ssh_config id) in
    let forget = strip >> io io_failed (Registry.remove o.root id) in
    let destroy = if keep_vm then pure tt else best_effort (Delete.delete o id be) in
    let drop = best_effort (Client.remove o (pad id)) in
    let (_, _, first, h1) = passed drop (λ _. destroy >> forget) m tt h in
    let (_, _, second, h2) = passed destroy (λ _. forget) (drop m).0 tt h1 in
    rw (first, second) (forgotten o id (destroy (drop m).0).0 b apart h2)
