-- ===== src/Machine/Keeps.antt =====
-- What a run keeps, one rule for each way to build it.
use mpd_virt_macos.Base.{Bool, true, false, if◌then◌else◌, Result, ok, err}
use mpd_virt_macos.Fs.{Fs}
use mpd_virt_macos.Machine.{
  Mac, Failure, Run, pure, raise, lift, gets, reads, ◌>>=◌, attempt, continue,
}

-- `r` keeps `P`, whether it returns or fails.
pub record Keeps {A : Type 0} (P : Mac → Type 0) (r : Run A) : Type 0 where
  pub at : (m : Mac) → P m → P (r m).0

module _ {A : Type 0} {P : Mac → Type 0} where
  pub Keeps-pure : (a : A) → Keeps P (pure a)
  unfolding pure
  Keeps-pure a = record { at = λ m h. h }

  pub Keeps-raise : (e : Failure) → Keeps {A = A} P (raise e)
  unfolding raise
  Keeps-raise e = record { at = λ m h. h }

  pub Keeps-lift : {E : Type 0} (f : E → Failure) (r : Result E A) → Keeps P (lift f r)
  unfolding lift
  Keeps-lift f r = record { at = λ m h. h }

  pub Keeps-gets : (f : Mac → A) → Keeps P (gets f)
  unfolding gets
  Keeps-gets f = record { at = λ m h. h }

  pub Keeps-reads : {E : Type 0} (f : E → Failure) (g : Fs → Result E A) → Keeps P (reads f g)
  unfolding reads
  Keeps-reads f g = record { at = λ m h. h }

  pub Keeps-if : (b : Bool) (r s : Run A) → Keeps P r → Keeps P s → Keeps P (if b then r else s)
  Keeps-if true r s kr ks = kr
  Keeps-if false r s kr ks = ks

module _ {A B : Type 0} {P : Mac → Type 0} where
  continued :
      (f : A → Run B)
      → ((a : A) → Keeps P (f a))
      → (m : Mac) (r : Result Failure A) → P m
      → P (continue (m, r) f).0
  continued f kf m (ok a) h = (kf a).at m h
  continued f kf m (err e) h = h

  pub Keeps-bind :
      (r : Run A) (f : A → Run B) → Keeps P r → ((a : A) → Keeps P (f a)) → Keeps P (r >>= f)
  unfolding ◌>>=◌
  Keeps-bind r f kr kf = record { at = λ m h. continued f kf (r m).0 (r m).1 (kr.at m h) }

  pub Keeps-attempt :
      (r : Run A) (f : Result Failure A → Run B)
      → Keeps P r
      → ((a : Result Failure A) → Keeps P (f a))
      → Keeps P (attempt r f)
  unfolding attempt
  Keeps-attempt r f kr kf = record { at = λ m h. (kf (r m).1).at (r m).0 (kr.at m h) }

pub ruleset keeps_rules = (
  Keeps-pure, Keeps-raise, Keeps-lift, Keeps-gets, Keeps-reads, Keeps-if, Keeps-bind, Keeps-attempt,
)
