-- ===== src/Machine/Outcome.antt =====
-- What a run that succeeds has done on the way.
use mpd_virt_macos.Base.{Bool, true, false, Result, ok, err, ◌≡◌, refl}
use mpd_virt_macos.Fs.{Fs, Io}
use mpd_virt_macos.Machine.{
  Mac, Failure, Run, pure, raise, lift, io, gets, reads, require, ◌>>=◌, ◌>>◌, continue, result_of,
}

module _ {A B : Type 0} where
  -- The first step has succeeded, and the rest runs on what it left.
  abbrev pub Passed : Run A → (A → Run B) → Mac → B → Type 0
  Passed r f m b =
      (a : A) × ((r m).1 ≡ ok a) × ((r >>= f) m ≡ f a (r m).0) × ((f a (r m).0).1 ≡ ok b)

  by_pair :
      (done : Mac × Result Failure A) (f : A → Run B) (b : B)
      → (continue done f).1 ≡ ok b
      → (a : A) × (done.1 ≡ ok a) × (continue done f ≡ f a done.0) × ((f a done.0).1 ≡ ok b)
  by_pair (m, ok a) f b h = (a, refl, refl, h)
  by_pair (m, err x) f b h = absurd (never h)
    where
      never : ◌≡◌ {A = Result Failure B} (err x) (ok b) → ⊥
      never k = cc

  pub passed :
      (r : Run A) (f : A → Run B) (m : Mac) (b : B) → ((r >>= f) m).1 ≡ ok b → Passed r f m b
  unfolding ◌>>=◌
  passed r f m b h = by_pair (r m) f b h

  pub gets_then : (g : Mac → A) (f : A → Run B) (m : Mac) → (gets g >>= f) m ≡ f (g m) m
  unfolding gets ◌>>=◌
  gets_then g f m = refl

  stopped :
      (done : Mac × Result Failure A) (f : A → Run B) (e : Failure)
      → done.1 ≡ err e
      → continue done f ≡ (done.0, err e)
  stopped (m, ok a) f e h = absurd (never h)
    where
      never : ◌≡◌ {A = Result Failure A} (ok a) (err e) → ⊥
      never k = cc
  stopped (m, err x) f e h = let same : x ≡ e = cc in rw same refl

  -- Behind a step that fails nothing runs.
  pub refused :
      (r : Run A) (f : A → Run B) (m : Mac) (e : Failure)
      → (r m).1 ≡ err e
      → (r >>= f) m ≡ ((r m).0, err e)
  unfolding ◌>>=◌
  refused r f m e h = stopped (r m) f e h

module _ {E A : Type 0} where
  only_ok : (f : E → Failure) (r : Result E A) (a : A) → result_of f r ≡ ok a → r ≡ ok a
  only_ok f (ok x) a h = cc
  only_ok f (err e) a h = cc

  pub io_ok :
      (f : E → Failure) (g : Io E A) (m : Mac) (a : A)
      → (io f g m).1 ≡ ok a
      → ((g m.files).1 ≡ ok a) × ((io f g m).0.files ≡ (g m.files).0)
  unfolding io
  io_ok f g m a h = (only_ok f (g m.files).1 a h, refl)

-- Behind a test that must hold.
pub required :
    {B : Type 0} (t : Bool) (e : Failure) (r : Run B) (m : Mac) (b : B)
    → ((require t e >> r) m).1 ≡ ok b
    → (t ≡ true) × ((require t e >> r) m ≡ r m) × ((r m).1 ≡ ok b)
unfolding ◌>>=◌ pure raise
required true e r m b h = (refl, refl, h)
required false e r m b h = cc

-- Behind a value that depends on nothing.
pub lift_then :
    {E A B : Type 0} (f : E → Failure) (r : Result E A) (g : A → Run B) (m : Mac) (a : A)
    → r ≡ ok a
    → (lift f r >>= g) m ≡ g a m
unfolding ◌>>=◌ lift
lift_then f (ok x) g m a h = let same : x ≡ a = cc in rw same refl
lift_then f (err e) g m a h = cc

-- Behind a read of the files that must succeed.
pub read_ok :
    {E A B : Type 0} (f : E → Failure) (g : Fs → Result E A) (k : A → Run B) (m : Mac) (b : B)
    → ((reads f g >>= k) m).1 ≡ ok b
    → (a : A) × (g m.files ≡ ok a) × ((reads f g >>= k) m ≡ k a m) × ((k a m).1 ≡ ok b)
unfolding ◌>>=◌ reads
read_ok {E} {A} {B} f g k m b h = by_result (g m.files) refl
  where
    by_result :
        (r : Result E A)
        → g m.files ≡ r
        → (a : A) × (g m.files ≡ ok a) × ((reads f g >>= k) m ≡ k a m) × ((k a m).1 ≡ ok b)
    by_result (ok a) e = (a, e, rw e refl, rw e at h)
    by_result (err x) e = absurd (never (rw e at h))
      where
        never : ◌≡◌ {A = Result Failure B} (err (f x)) (ok b) → ⊥
        never j = cc
