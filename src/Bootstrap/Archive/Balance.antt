-- ===== src/Bootstrap/Archive/Balance.antt =====
-- Files that the extraction opens are closed.
use hyperfleet_controller.Base.{
  M, Error, true, false, if◌then◌else◌, ◌+◌, Text, ◌≡◌, Bool, none, some, List, [], ◌∷◌, arith, Err,
  check_or, deferring, done, fail,
}
use hyperfleet_controller.Bootstrap.System.{
  Trace, Typeflag, type_dir, type_reg, type_other, Header, Env, perform, opens, closes,
}
use hyperfleet_controller.Bootstrap.Archive.{extract_at, extract_entry, extract}

-- A call closes as many files as it opens.
pub record IsBalanced (m : M Trace Err) : Type 0 where
  pub at : (t : Trace) → opens (m t).1 + closes t ≡ closes (m t).1 + opens t

IsBalanced-fail : (e : Error) → IsBalanced (fail e)
unfolding fail
IsBalanced-fail e = record { at = λ t. omega arith }

IsBalanced-done : IsBalanced done
unfolding done
IsBalanced-done = record { at = λ t. omega arith }

IsBalanced-check_or :
    (m k : M Trace Err) → IsBalanced m → IsBalanced k → IsBalanced (check_or fail m k)
unfolding deferring
IsBalanced-check_or m k bm bk = record { at = λ t. ground (arith, bm.at t, bk.at (m t).1) }

IsBalanced-if :
    (b : Bool) (m k : M Trace Err) → IsBalanced m → IsBalanced k → IsBalanced (if b then m else k)
IsBalanced-if true m k bm bk = bm
IsBalanced-if false m k bm bk = bk

module _ (env : Env) where
  extract_at-IsBalanced :
      (p : Text) (header : Header) (flag : Typeflag) → IsBalanced (extract_at env p header flag)
  unfolding extract_at deferring perform opens closes
  extract_at-IsBalanced p header type_dir = record { at = λ t. ground arith }
  extract_at-IsBalanced p header type_reg = record { at = λ t. ground arith }
  extract_at-IsBalanced p header (type_other flag) = IsBalanced-done

  extract_entry-IsBalanced :
      (base : Text) (header : Header) → IsBalanced (extract_entry env base header)
  unfolding extract_entry
  extract_entry-IsBalanced base header =
      IsBalanced-if _ _ _ (IsBalanced-fail _) (extract_at-IsBalanced _ header header.typeflag)

  -- Whatever the archive holds and whatever fails, the extraction closes exactly as many files as
  -- it opens.
  pub extract-IsBalanced :
      (base : Text) (entries : List Header) (tar_error : Err)
      → IsBalanced (extract env base entries tar_error)
  unfolding extract
  extract-IsBalanced base [] none = IsBalanced-done
  extract-IsBalanced base [] (some e) = IsBalanced-fail _
  extract-IsBalanced base (header ∷ rest) tar_error =
      IsBalanced-check_or _ _ (extract_entry-IsBalanced base header)
        (extract-IsBalanced base rest tar_error)
