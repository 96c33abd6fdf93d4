-- ===== src/Fs/Laws.antt =====
-- What each operation does to the node at a path.
use mpd_virt_macos.Base.{
  ◌<◌, Bool, true, false, [], ◌∷◌, ◌++◌, none, some, ◌==◌, nat_eq, list_eq, ==_self, ==_ne, ==_eq,
  if◌then◌else◌, Result-cases, ok, ◌≡◌, ◌≢◌, refl, arith, length, length-append, append_assoc,
  append-nil, ◌∙◌, inl, inr, ap, subst,
}
use mpd_virt_macos.Text.{Text}
use mpd_virt_macos.Fs.{
  FilePath, Node, file, directory, Nodes, Fs, find, put, is_under, prune, stat, dir_of, Io, ◌>>◌,
  put_dirs, read_file, write_file, mkdir_all, remove_all,
}

abbrev same : FilePath → FilePath → Bool
same p q = p == q

path_iff : (p q : FilePath) → (same p q ≡ true → p ≡ q) × (p ≡ q → same p q ≡ true)
path_iff p q = (==_eq p q, λ e. rw e (==_self q))

pub find-put :
    (q p : FilePath) (n : Node) (ns : Nodes)
    → find q (put p n ns) ≡ (if q == p then some n else find q ns)
unfolding find put
find-put q p n [] = refl
find-put q p n ((r, m) ∷ ns) =
    ground (arith, find-put q p n ns, path_iff q p, path_iff q r, path_iff p r)

pub find-prune :
    (q p : FilePath) (ns : Nodes) → find q (prune p ns) ≡ (if is_under p q then none else find q ns)
unfolding find prune
find-prune q p [] = ground arith
find-prune q p ((r, m) ∷ ns) =
    ground (arith, find-prune q p ns, path_iff q r, ap (is_under p) {x = q} {y = r})

find-put_dirs :
    (q above p : FilePath) (ns : Nodes)
    → length (above ++ p) < length q
    → find q (put_dirs above p ns) ≡ find q ns
unfolding put_dirs
find-put_dirs q above [] ns h = refl
find-put_dirs q above (a ∷ p) ns h =
    find-put_dirs q (above ++ a ∷ []) p (put (above ++ a ∷ []) directory ns)
      (rw (append_assoc above (a ∷ []) p) h)
    ∙ (find-put q (above ++ a ∷ []) directory ns
        ∙ rw (==_ne q (above ++ a ∷ []) (λ e. longer (ap length e))))
  where
    longer : length q ≡ length (above ++ a ∷ []) → ⊥
    longer e = omega (arith, length-append above (a ∷ []), length-append above (a ∷ p))

-- The file `p` can be read, and it holds the text.
abbrev pub Holds : FilePath → Fs → Text → Type 0
Holds p fs t = (fs.denied p ≡ false) × (find p fs.nodes ≡ some (file t))

-- Nothing that can be seen at `q` has changed.
abbrev pub SameAt : FilePath → Fs → Fs → Type 0
SameAt q fs fs' = (fs'.denied q ≡ fs.denied q) × (find q fs'.nodes ≡ find q fs.nodes)

pub SameAt-trans : {q : FilePath} (a b c : Fs) → SameAt q a b → SameAt q b c → SameAt q a c
SameAt-trans a b c h k = (k.0 ∙ h.0, k.1 ∙ h.1)

pub read_file-Holds :
    (p : FilePath) (fs : Fs) (t : Text)
    → (read_file p fs ≡ ok t → Holds p fs t) × (Holds p fs t → read_file p fs ≡ ok t)
unfolding read_file
read_file-Holds p fs t = (λ h. ground arith, λ h. ground arith)

pub mkdir_all-SameAt :
    (q p : FilePath) (fs : Fs) → length p < length q → SameAt q fs (mkdir_all p fs).0
unfolding mkdir_all
mkdir_all-SameAt q p fs h = ground (arith, find-put_dirs q [] p fs.nodes h)

pub write_file-SameAt :
    (q p : FilePath) (body : Text) (fs : Fs) → q ≢ p → SameAt q fs (write_file p body fs).0
unfolding write_file
write_file-SameAt q p body fs h = ground (arith, find-put q p (file body) fs.nodes, path_iff q p)

pub write_file-Holds :
    (p : FilePath) (body : Text) (fs : Fs)
    → (write_file p body fs).1 ≡ ok tt
    → Holds p (write_file p body fs).0 body
unfolding write_file
write_file-Holds p body fs h = ground (arith, find-put p p (file body) fs.nodes, path_iff p p)

pub remove_all-SameAt :
    (q p : FilePath) (fs : Fs) → is_under p q ≡ false → SameAt q fs (remove_all p fs).0
unfolding remove_all
remove_all-SameAt q p fs h = ground (arith, find-prune q p fs.nodes)

pub remove_all_gone :
    (q p : FilePath) (fs : Fs)
    → (remove_all p fs).1 ≡ ok tt
    → is_under p q ≡ true
    → find q (remove_all p fs).0.nodes ≡ none
unfolding remove_all
remove_all_gone q p fs h k = ground (arith, find-prune q p fs.nodes)

pub is_under-append : (p q : FilePath) → is_under p (p ++ q) ≡ true
unfolding is_under
is_under-append [] q = refl
is_under-append (a ∷ p) q = rw (==_self a) (is_under-append p q)

-- Below a common directory, a path is decided by its next component.
pub is_under_sibling :
    (r p q : FilePath) (a b : Text) → a ≢ b → is_under (r ++ a ∷ p) (r ++ b ∷ q) ≡ false
unfolding is_under
is_under_sibling [] p q a b h = rw (==_ne a b h)
is_under_sibling (c ∷ r) p q a b h = rw (==_self c) (is_under_sibling r p q a b h)

-- A path is under itself.
pub is_under_ne : (q p : FilePath) → is_under q p ≡ false → q ≢ p
is_under_ne q p h e =
    let above : is_under q p ≡ true =
      subst (λ r. is_under q r ≡ true) e
        (subst (λ r. is_under q r ≡ true) (append-nil q) (is_under-append q [])) in
    ground (arith, above, h)

-- What is above the directory of a path is above the path.
is_under-dir_of : (q p : FilePath) → is_under q p ≡ false → is_under q (dir_of p) ≡ false
unfolding is_under dir_of
is_under-dir_of [] p h = h
is_under-dir_of (c ∷ q) [] h = refl
is_under-dir_of (c ∷ q) (a ∷ []) h = refl
is_under-dir_of (c ∷ q) (a ∷ b ∷ p) h = ground (arith, is_under-dir_of q (b ∷ p))

pub find-put_dirs_apart :
    (q above p : FilePath) (ns : Nodes)
    → is_under q (above ++ p) ≡ false
    → find q (put_dirs above p ns) ≡ find q ns
unfolding put_dirs
find-put_dirs_apart q above [] ns h = refl
find-put_dirs_apart q above (a ∷ p) ns h =
    find-put_dirs_apart q (above ++ a ∷ []) p (put (above ++ a ∷ []) directory ns)
      (rw (append_assoc above (a ∷ []) p) h)
    ∙ (find-put q (above ++ a ∷ []) directory ns ∙ rw (==_ne q (above ++ a ∷ []) above_it))
  where
    above_it : q ≢ above ++ a ∷ []
    above_it e =
        let under : is_under q (above ++ a ∷ p) ≡ true =
          subst (λ r. is_under q r ≡ true) (append_assoc above (a ∷ []) p)
            (rw e (is_under-append (above ++ a ∷ []) p)) in
        ground (arith, under, h)

-- Making the directory of a path changes nothing but at what is above the path.
pub mkdir_all_apart :
    (q p : FilePath) (fs : Fs) → is_under q p ≡ false → SameAt q fs (mkdir_all (dir_of p) fs).0
unfolding mkdir_all
mkdir_all_apart q p fs h =
    ground (arith, find-put_dirs_apart q [] (dir_of p) fs.nodes (is_under-dir_of q p h))

-- Two steps, of which the second runs only if the first succeeds.
module _ {E B : Type 0} (m : Io E (Unit {0})) (k : Io E B) (fs : Fs) where
  pub >>_ok :
      {b : B}
      → ((m >> k) fs).1 ≡ ok b
      → ((m >> k) fs ≡ k (m fs).0) × ((m fs).1 ≡ ok tt) × ((k (m fs).0).1 ≡ ok b)
  >>_ok h = ground arith

  -- What neither step changes, the two together do not change.
  pub >>-SameAt :
      (q : FilePath)
      → SameAt q fs (m fs).0
      → SameAt q (m fs).0 (k (m fs).0).0
      → SameAt q fs ((m >> k) fs).0
  >>-SameAt q h j = elim (Result-cases (m fs).1) [
    | inl (x, e) ↦ rw e (SameAt-trans fs (m fs).0 (k (m fs).0).0 h j)
    | inr (x, e) ↦ rw e h
  ]

-- What is written is read back.
pub read_file-write_file :
    (p : FilePath) (body : Text) (fs : Fs)
    → (write_file p body fs).1 ≡ ok tt
    → read_file p (write_file p body fs).0 ≡ ok body
read_file-write_file p body fs h =
    (read_file-Holds p (write_file p body fs).0 body).1 (write_file-Holds p body fs h)

pub read_file-SameAt :
    (p : FilePath) (fs fs' : Fs) (t : Text)
    → SameAt p fs fs'
    → read_file p fs ≡ ok t
    → read_file p fs' ≡ ok t
read_file-SameAt p fs fs' t s h =
    let held = (read_file-Holds p fs t).0 h in
    (read_file-Holds p fs' t).1 (s.0 ∙ held.0, s.1 ∙ held.1)

pub dir_of_shorter : (p : FilePath) → p ≢ [] → length (dir_of p) < length p
unfolding dir_of
dir_of_shorter [] h = absurd (h refl)
dir_of_shorter (a ∷ []) h = omega arith
dir_of_shorter (a ∷ b ∷ p) h = omega (arith, dir_of_shorter (b ∷ p) (λ e. cc))

pub stat-read_file :
    (p : FilePath) (fs : Fs) (t : Text) → read_file p fs ≡ ok t → stat p fs ≡ ok (file t)
unfolding read_file
stat-read_file p fs t h = ground arith
