-- ===== src/Uninstall/Gone.antt =====
-- What the removal takes away.
use mpd_virt_macos.Base.{
  Bool, true, List, [], ◌∷◌, ◌++◌, any, ◌==◌, list_eq, nat_eq, ==_self, ==_eq, if◌then◌else◌,
  Result, ok, err, ◌≡◌, ◌≢◌, refl, append_assoc, sym, ◌∙◌, arith, Bool-cases, inl, inr, Option,
  none, some, Result-cases,
}
use mpd_virt_macos.Text.{Text, codes}
use mpd_virt_macos.Fs.{
  FilePath, Node, directory, Nodes, IoError, not_exist, failed, Fs, Io, ◌>>◌, read_dir, stat,
  remove_all, find, is_under, children, child_name,
}
use mpd_virt_macos.Fs.Laws.{find-prune, remove_all_gone, is_under-append, >>_ok}
use mpd_virt_macos.Paths.{conf, ca_root}
use mpd_virt_macos.Uninstall.{
  base_of, remove_path, remove_but, wipe_conf, wipe_each, wipe_listed, wipe_host_state, WipeError,
}
use mpd_virt_macos.Uninstall.Kept.{base_of-conf}

child_name-append : (dir : FilePath) (a : Text) → child_name dir (dir ++ a ∷ []) ≡ some a
unfolding child_name
child_name-append [] a = refl
child_name-append (b ∷ dir) a = rw (==_self b) (child_name-append dir a)

-- An entry of the tree is among the children of its directory.
children_named :
    (dir : FilePath) (a : Text) (x : Node) (ns : Nodes)
    → find (dir ++ a ∷ []) ns ≡ some x
    → any (λ e. e.0 == a) (children dir ns) ≡ true
unfolding find children
children_named dir a x [] h = ground arith
children_named dir a x ((q, m) ∷ ns) h = elim (Bool-cases ((dir ++ a ∷ []) == q)) [
  | inl e ↦
      rw (sym (==_eq (dir ++ a ∷ []) q e))
        (rw (child_name-append dir a, children) (rw (==_self a) refl))
  | inr e ↦ behind (child_name dir q) refl (children_named dir a x ns (ground arith))
]
  where
    behind :
        (o : Option Text)
        → child_name dir q ≡ o
        → any (λ e. e.0 == a) (children dir ns) ≡ true
        → any (λ e. e.0 == a) (children dir ((q, m) ∷ ns)) ≡ true
    behind none k j = rw (k, children) j
    behind (some b) k j = rw (k, children) (ground arith)

-- What every removal keeps, the whole keeps.
module _ (P : Fs → Type 0) (step : (p : FilePath) (fs : Fs) → P fs → P (remove_all p fs).0) where
  seq_P :
      (m k : Io WipeError (Unit {0}))
      → ((fs : Fs) → P fs → P (m fs).0)
      → ((fs : Fs) → P fs → P (k fs).0)
      → (fs : Fs) → P fs
      → P ((m >> k) fs).0
  seq_P m k hm hk fs h = elim (Result-cases (m fs).1) [
    | inl (x, e) ↦ rw e (hk (m fs).0 (hm fs h))
    | inr (x, e) ↦ rw e (hm fs h)
  ]

  remove_but_P :
      (dir : FilePath) (kept : Text) (es : List (Text × Bool)) (fs : Fs)
      → P fs
      → P (remove_but dir kept es fs).0
  unfolding remove_but
  remove_but_P dir kept [] fs h = h
  remove_but_P dir kept ((n, d) ∷ es) fs h = elim (Bool-cases (n == kept)) [
    | inl e ↦ rw e (remove_but_P dir kept es fs h)
    | inr e ↦ rw e (
        seq_P (remove_path (dir ++ n ∷ [])) (remove_but dir kept es) (step (dir ++ n ∷ []))
          (remove_but_P dir kept es) fs h)
  ]

  wipe_conf_P : (root : FilePath) (fs : Fs) → P fs → P (wipe_conf root fs).0
  unfolding wipe_conf
  wipe_conf_P root fs h = elim (Result-cases (read_dir (conf root) fs)) [
    | inl (es, e) ↦ rw e (remove_but_P (conf root) (base_of (ca_root root)) es fs h)
    | inr (x, e) ↦ rw e h
  ]

  entry_P :
      (root : FilePath) (n : Text) (fs : Fs)
      → P fs
      → P ((if n == base_of (conf root) then wipe_conf root else remove_path (root ++ n ∷ [])) fs).0
  entry_P root n fs h = elim (Bool-cases (n == base_of (conf root))) [
    | inl e ↦ rw e (wipe_conf_P root fs h)
    | inr e ↦ rw e (step (root ++ n ∷ []) fs h)
  ]

  wipe_each_P :
      (root : FilePath) (es : List (Text × Bool)) (fs : Fs) → P fs → P (wipe_each root es fs).0
  unfolding wipe_each
  wipe_each_P root [] fs h = h
  wipe_each_P root ((n, d) ∷ es) fs h =
      seq_P (if n == base_of (conf root) then wipe_conf root else remove_path (root ++ n ∷ []))
        (wipe_each root es) (entry_P root n) (wipe_each_P root es) fs h

none-remove_all :
    (q p : FilePath) (fs : Fs) → find q fs.nodes ≡ none → find q (remove_all p fs).0.nodes ≡ none
unfolding remove_all
none-remove_all q p fs h = ground (arith, find-prune q p fs.nodes)

module _ (root rest : FilePath) (a : Text) (other : a ≢ codes "conf") where
  abbrev gone : FilePath
  gone = root ++ a ∷ rest

  -- The step of the loop for one name.
  abbrev entry_step : Text → Io WipeError (Unit {0})
  entry_step n = if n == base_of (conf root) then wipe_conf root else remove_path (root ++ n ∷ [])

  removed_path_ok :
      (p : FilePath) (fs : Fs) → (remove_path p fs).1 ≡ ok tt → (remove_all p fs).1 ≡ ok tt
  removed_path_ok p fs h = by_result (remove_all p fs).1 refl
    where
      by_result :
          (r : Result IoError (Unit {0})) → (remove_all p fs).1 ≡ r → (remove_all p fs).1 ≡ ok tt
      by_result (ok x) e = e
      by_result (err x) e = ground arith

  under_gone : is_under (root ++ a ∷ []) gone ≡ true
  under_gone = rw (sym (append_assoc root (a ∷ []) rest)) (is_under-append (root ++ a ∷ []) rest)

  entry_gone : (fs : Fs) → (entry_step a fs).1 ≡ ok tt → find gone (entry_step a fs).0.nodes ≡ none
  entry_gone fs h = elim (Bool-cases (a == base_of (conf root))) [
    | inl e ↦ absurd (other (==_eq a (base_of (conf root)) e ∙ base_of-conf root))
    | inr e ↦ rw e (
        remove_all_gone gone (root ++ a ∷ []) fs (removed_path_ok (root ++ a ∷ []) fs (rw e at h))
          under_gone)
  ]

  gone-wipe_each :
      (es : List (Text × Bool)) (fs : Fs)
      → (wipe_each root es fs).1 ≡ ok tt
      → any (λ e. e.0 == a) es ≡ true
      → find gone (wipe_each root es fs).0.nodes ≡ none
  unfolding wipe_each
  gone-wipe_each [] fs h k = ground arith
  gone-wipe_each ((n, d) ∷ es) fs h k =
      let (whole, first, behind) = >>_ok (entry_step n) (wipe_each root es) fs h in
      rw whole (elim (Bool-cases (n == a)) [
        | inl e ↦
            wipe_each_P (λ s. find gone s.nodes ≡ none) (none-remove_all gone) root es
              (entry_step n fs).0 (same (==_eq n a e) first)
        | inr e ↦ gone-wipe_each es (entry_step n fs).0 behind (ground arith)
      ])
    where
      same : n ≡ a → (entry_step n fs).1 ≡ ok tt → find gone (entry_step n fs).0.nodes ≡ none
      same e = rw e (entry_gone fs)

  -- If the removal succeeds on a root that is a directory, then of every entry of the root but
  -- `conf` (the boxes and the LAN servers) nothing is left: neither itself nor anything below it.
  pub gone-wipe_host_state :
      (fs : Fs) (x : Node)
      → find root fs.nodes ≡ some directory
      → find (root ++ a ∷ []) fs.nodes ≡ some x
      → (wipe_host_state root fs).1 ≡ ok tt
      → find gone (wipe_host_state root fs).0.nodes ≡ none
  unfolding wipe_host_state
  gone-wipe_host_state fs x is_root there h = by_listing (read_dir root fs) refl h
    where
      listed : (es : List (Text × Bool)) → read_dir root fs ≡ ok es → es ≡ children root fs.nodes
      listed es e = unfold read_dir stat in ground arith

      never : read_dir root fs ≡ err not_exist → ⊥
      never e = unfold read_dir stat in ground arith

      by_listing :
          (r : Result IoError (List (Text × Bool)))
          → read_dir root fs ≡ r
          → (wipe_listed root r fs).1 ≡ ok tt
          → find gone (wipe_listed root r fs).0.nodes ≡ none
      by_listing (ok es) e k =
          gone-wipe_each es fs k (rw (listed es e) (children_named root a x fs.nodes there))
      by_listing (err not_exist) e k = absurd (never e)
      by_listing (err failed) e k = cc
