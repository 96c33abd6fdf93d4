-- ===== src/Registry/Frame.antt =====
-- What `Save` and `Remove` leave alone: the entries of the other boxes, and the files outside the
-- directory of the box.
use mpd_virt_macos.Base.{
  ℕ, ◌<◌, true, false, [], ◌∷◌, ◌++◌, none, list_eq, nat_eq, ok, err, ◌≡◌, ◌≢◌, ◌↔◌, sym, arith,
  length, length-append, append_assoc,
}
use mpd_virt_macos.Text.{Text, codes}
use mpd_virt_macos.Fs.{
  FilePath, Fs, not_exist, find, is_under, mkdir_all, write_file, remove_all, read_file, stat,
}
use mpd_virt_macos.Fs.Laws.{
  SameAt, >>-SameAt, mkdir_all-SameAt, write_file-SameAt, remove_all-SameAt, remove_all_gone,
  is_under-append,
}
use mpd_virt_macos.Vmid.{pad}
use mpd_virt_macos.Vmid.Bounds.{IsBoxId, pad-injective}
use mpd_virt_macos.Paths.{vm_dir, vm_env}
use mpd_virt_macos.Registry.{Entry, body, save, load, remove, exists}

-- An entry that can be loaded comes from the bytes of its env file alone.
pub load_ok-SameAt :
    (root : FilePath) (id : ℕ) (fs fs' : Fs)
    → SameAt (vm_env root id) fs fs'
    → (e : Entry) → load root id fs ≡ ok e
    → load root id fs' ≡ ok e
unfolding load read_file stat
load_ok-SameAt root id fs fs' h e l = ground arith

pub path_apart : (r p q : FilePath) (a b : Text) → a ≢ b → r ++ a ∷ p ≢ r ++ b ∷ q
path_apart [] p q a b h = λ e. h (cc)
path_apart (c ∷ r) p q a b h = λ e. path_apart r p q a b h (cc)

module _ (root : FilePath) (i j : ℕ) (bi : IsBoxId i) (bj : IsBoxId j) (apart : i ≢ j) where
  pad_apart : pad i ≢ pad j
  pad_apart e = apart (pad-injective i j bi bj e)

  env_deeper : length (vm_dir root i) < length (vm_env root j)
  unfolding vm_dir vm_env
  env_deeper =
      omega (arith, length-append root (pad i ∷ []), length-append root (pad j ∷ codes "env" ∷ []))

  env_apart : vm_env root j ≢ vm_env root i
  unfolding vm_env
  env_apart =
      path_apart root (codes "env" ∷ []) (codes "env" ∷ []) (pad j) (pad i) (λ e. pad_apart (sym e))

  -- For two different box ids from 1 to 254, `Save` of an entry of the one, whether it succeeds
  -- or not, makes `Load` of the other return an entry if and only if it returned it before.
  pub load-save_other :
      (e f : Entry) (fs : Fs)
      → e.id ≡ i
      → (load root j fs ≡ ok f) ↔ (load root j (save root e fs).0 ≡ ok f)
  unfolding save
  load-save_other e f fs same =
      let kept : SameAt (vm_env root j) fs (save root e fs).0 =
        >>-SameAt (mkdir_all (vm_dir root e.id)) (write_file (vm_env root e.id) (body e)) fs
          (vm_env root j)
          (mkdir_all-SameAt (vm_env root j) (vm_dir root e.id) fs (rw same env_deeper))
          (write_file-SameAt (vm_env root j) (vm_env root e.id) (body e) _ (rw same env_apart)) in
      (load_ok-SameAt root j fs _ kept f, load_ok-SameAt root j _ fs (sym kept.0, sym kept.1) f)

remove_all_no-not_exist : (p : FilePath) (fs : Fs) → (remove_all p fs).1 ≢ err not_exist
unfolding remove_all
remove_all_no-not_exist p fs = ground arith

pub remove-remove_all :
    (root : FilePath) (i : ℕ) (fs : Fs) → remove root i fs ≡ remove_all (vm_dir root i) fs
unfolding remove
remove-remove_all root i fs = ground (arith, remove_all_no-not_exist (vm_dir root i) fs)

-- `Remove`, whether it succeeds or not, changes nothing outside the directory of the box.
pub remove_outside :
    (root : FilePath) (i : ℕ) (fs : Fs) (q : FilePath)
    → is_under (vm_dir root i) q ≡ false
    → SameAt q fs (remove root i fs).0
remove_outside root i fs q h =
    rw (remove-remove_all root i fs) (remove_all-SameAt q (vm_dir root i) fs h)

-- If `Remove` succeeds, nothing is left in the directory of the box.
remove_gone :
    (root : FilePath) (i : ℕ) (fs : Fs)
    → (remove root i fs).1 ≡ ok tt
    → (q : FilePath) → is_under (vm_dir root i) q ≡ true
    → find q (remove root i fs).0.nodes ≡ none
remove_gone root i fs h q k =
    rw (remove-remove_all root i fs)
      (remove_all_gone q (vm_dir root i) fs (rw (remove-remove_all root i fs) at h) k)

-- After a successful `Remove` the box is no longer known.
pub exists-remove :
    (root : FilePath) (i : ℕ) (fs : Fs)
    → (remove root i fs).1 ≡ ok tt
    → exists root i (remove root i fs).0 ≡ false
exists-remove root i fs h =
    unknown (remove root i fs).0 (remove_gone root i fs h (vm_env root i) env_under)
  where
    unknown : (fs' : Fs) → find (vm_env root i) fs'.nodes ≡ none → exists root i fs' ≡ false
    unknown fs' h = unfold exists stat in ground arith

    env_under : is_under (vm_dir root i) (vm_env root i) ≡ true
    env_under =
        unfold vm_dir vm_env in
        rw (← append_assoc root (pad i ∷ []) (codes "env" ∷ [])) (is_under-append _ _)
