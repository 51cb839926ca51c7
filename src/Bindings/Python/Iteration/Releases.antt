-- ===== src/Bindings/Python/Iteration/Releases.antt =====
-- The entries of bindings/python/src/archive_r_py.cc that Python holds, when the iterator releases one.
use archive_r.Base.{
  ℕ, zero, suc, ◌≡◌, refl, ◌∙◌, ◌⊎◌, inl, inr, Bool, true, false, Option, none, some, List, [], ◌∷◌,
  ◌++◌, length, All, if◌then◌else◌,
}
use archive_r.Bindings.Python.Entries.{PyEntry, bind_live_entry, release_live_entry}
use archive_r.Bindings.Python.Iteration.{PyTraverser, change_at, release_at, release_last}

pub either-holds :
    {A : Type 0} (Q : A → Type 0) (b : Bool) (x y : A)
    → (b ≡ true → Q x)
    → (b ≡ false → Q y)
    → Q (if b then x else y)
either-holds Q true x y left right = left refl
either-holds Q false x y left right = right refl

module _ {P R O : Type 0} where
  abbrev pub IsReleased : List (PyEntry P R O) → Type 0
  IsReleased es = All (λ e. e.live_entry ≡ none) es

  -- No entry points to an object, except perhaps the last one, and that to this object.
  abbrev pub OnlyLive : Option ℕ → ℕ → List (PyEntry P R O) → Type 0
  OnlyLive none n es = IsReleased es
  OnlyLive (some k) n [] = Unit {0}
  OnlyLive (some zero) n (e ∷ es) =
      ((e.live_entry ≡ none) ⊎ (e.live_entry ≡ some n)) × IsReleased es
  OnlyLive (some (suc k)) n (e ∷ es) = (e.live_entry ≡ none) × OnlyLive (some k) n es

  change_at-IsReleased :
      (k n : ℕ) (es : List (PyEntry P R O))
      → OnlyLive (some k) n es
      → IsReleased (change_at k release_live_entry es)
  unfolding release_live_entry
  change_at-IsReleased k n [] live = tt
  change_at-IsReleased zero n (e ∷ es) live = (refl, live.1)
  change_at-IsReleased (suc k) n (e ∷ es) live = (live.0, change_at-IsReleased k n es live.1)

  released-OnlyLive :
      (o : Option ℕ) (n : ℕ) (es : List (PyEntry P R O)) → IsReleased es → OnlyLive o n es
  released-OnlyLive none n es released = released
  released-OnlyLive (some k) n [] released = tt
  released-OnlyLive (some zero) n (e ∷ es) released = (inl released.0, released.1)
  released-OnlyLive (some (suc k)) n (e ∷ es) released =
      (released.0, released-OnlyLive (some k) n es released.1)

  pub pushed-OnlyLive :
      (n : ℕ) (es : List (PyEntry P R O)) (e : PyEntry P R O)
      → IsReleased es
      → OnlyLive (some (length es)) n (es ++ bind_live_entry n e ∷ [])
  unfolding bind_live_entry
  pushed-OnlyLive n [] e released = (inr refl, tt)
  pushed-OnlyLive n (d ∷ es) e released = (released.0, pushed-OnlyLive n es e released.1)

  pub changed-OnlyLive :
      (o : Option ℕ) (n k : ℕ) (f : PyEntry P R O → PyEntry P R O) (es : List (PyEntry P R O))
      → ((e : PyEntry P R O) → (f e).live_entry ≡ e.live_entry)
      → OnlyLive o n es
      → OnlyLive o n (change_at k f es)
  changed-OnlyLive o n k f [] keeps live = live
  changed-OnlyLive none n zero f (e ∷ es) keeps live = (keeps e ∙ live.0, live.1)
  changed-OnlyLive none n (suc k) f (e ∷ es) keeps live =
      (live.0, changed-OnlyLive none n k f es keeps live.1)
  changed-OnlyLive (some zero) n zero f (e ∷ es) keeps live = (rw (keeps e) live.0, live.1)
  changed-OnlyLive (some zero) n (suc k) f (e ∷ es) keeps live =
      (live.0, changed-OnlyLive none n k f es keeps live.1)
  changed-OnlyLive (some (suc i)) n zero f (e ∷ es) keeps live = (keeps e ∙ live.0, live.1)
  changed-OnlyLive (some (suc i)) n (suc k) f (e ∷ es) keeps live =
      (live.0, changed-OnlyLive (some i) n k f es keeps live.1)

module _ {I P R O : Type 0} where
  -- An entry that points to an object is the last one that was given, and the object is the iterator's.
  abbrev pub IsSafe : PyTraverser I P R O → Type 0
  IsSafe t =
      OnlyLive t.last_entry t.object t.entries × (t.advance_pending ≡ false → IsReleased t.entries)

  pub released-IsSafe : (t : PyTraverser I P R O) → IsReleased t.entries → IsSafe t
  released-IsSafe t released =
      (released-OnlyLive t.last_entry t.object t.entries released, λ e. released)

  pub release_at-IsReleased :
      (o : Option ℕ) (t : PyTraverser I P R O)
      → OnlyLive o t.object t.entries
      → IsReleased (release_at o t).entries
  release_at-IsReleased none t live = live
  release_at-IsReleased (some k) t live = change_at-IsReleased k t.object t.entries live

  pub release_last-IsReleased :
      (t : PyTraverser I P R O) → IsSafe t → IsReleased (release_last t).entries
  unfolding release_last
  release_last-IsReleased t safe = release_at-IsReleased t.last_entry t safe.0
