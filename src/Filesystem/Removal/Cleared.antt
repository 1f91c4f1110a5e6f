-- ===== src/Filesystem/Removal/Cleared.antt =====
-- What has changed when some paths have been removed.
use ssh2_cpp.Base.{◌≡◌, sym, ◌∙◌, ℕ, Bool, true, false, Option, some, List, [], ◌∷◌, ◌++◌, Text}
use ssh2_cpp.Filesystem.Removal.Tree.{Listing, IsNot, AllAre, Disjoint}

append-IsNot : (q : Text) (ps qs : List Text) → IsNot q (ps ++ qs) → IsNot q ps × IsNot q qs
append-IsNot q [] qs h = (tt, h)
append-IsNot q (p ∷ ps) qs h = let (a, b) = append-IsNot q ps qs h.1 in ((h.0, a), b)

pub append-AllAre :
    (here : Text → Bool) (b : Bool) (ps qs : List Text)
    → AllAre here b (ps ++ qs)
    → AllAre here b ps × AllAre here b qs
append-AllAre here b [] qs h = (tt, h)
append-AllAre here b (p ∷ ps) qs h = let (x, y) = append-AllAre here b ps qs h.1 in ((h.0, x), y)

pub AllAre-append :
    (here : Text → Bool) (b : Bool) (ps qs : List Text)
    → AllAre here b ps
    → AllAre here b qs
    → AllAre here b (ps ++ qs)
AllAre-append here b [] qs h k = k
AllAre-append here b (p ∷ ps) qs h k = (h.0, AllAre-append here b ps qs h.1 k)

Disjoint-head :
    (ps : List Text) (q : Text) (qs : List Text)
    → Disjoint ps (q ∷ qs)
    → IsNot q ps × Disjoint ps qs
Disjoint-head [] q qs d = (tt, tt)
Disjoint-head (p ∷ ps) q qs d =
    let (a, b) = Disjoint-head ps q qs d.1 in ((λ e. d.0.0 (sym e), a), (d.0.1, b))

pub append-Disjoint :
    (ps qs rs : List Text) → Disjoint ps rs → Disjoint qs rs → Disjoint (ps ++ qs) rs
append-Disjoint [] qs rs d e = e
append-Disjoint (p ∷ ps) qs rs d e = (d.0, append-Disjoint ps qs rs d.1 e)

module _ {S : Type 0} (here : S → Text → Bool) (unread : S → ℕ → Option Listing) where
  -- The paths `ps` are gone and stay gone, the others are as before, and the directories that are open,
  -- of those in `other`, give what they gave before.
  pub record Cleared (ps : List Text) (other : ℕ → Type 0) (s s' : S) : Type 0 where
    pub gone : AllAre (here s') false ps
    pub stay_gone : (q : Text) → here s q ≡ false → here s' q ≡ false
    pub keeps_paths : (q : Text) → IsNot q ps → here s' q ≡ here s q
    pub keeps_open : (h : ℕ) (es : Listing) → other h → unread s h ≡ some es → unread s' h ≡ some es

  still_gone :
      (s s' : S) (ps : List Text)
      → ((q : Text) → here s q ≡ false → here s' q ≡ false)
      → AllAre (here s) false ps
      → AllAre (here s') false ps
  still_gone s s' [] k a = tt
  still_gone s s' (p ∷ ps) k a = (k p a.0, still_gone s s' ps k a.1)

  -- What is not removed is still there.
  pub still_here :
      (ps qs : List Text) (other : ℕ → Type 0) (s s' : S)
      → Cleared ps other s s'
      → Disjoint ps qs
      → AllAre (here s) true qs
      → AllAre (here s') true qs
  still_here ps [] other s s' c d a = tt
  still_here ps (q ∷ qs) other s s' c d a =
      let (apart, d') = Disjoint-head ps q qs d in
      (c.keeps_paths q apart ∙ a.0, still_here ps qs other s s' c d' a.1)

  pub Cleared-nothing :
      (other : ℕ → Type 0) (s s' : S)
      → ((q : Text) → here s' q ≡ here s q)
      → ((h : ℕ) (es : Listing) → other h → unread s h ≡ some es → unread s' h ≡ some es)
      → Cleared [] other s s'
  Cleared-nothing other s s' k o = record {
    gone = tt;
    stay_gone = λ q e. k q ∙ e;
    keeps_paths = λ q _. k q;
    keeps_open = o;
  }

  -- One removal after the other.
  pub Cleared-then :
      (ps qs : List Text) (other : ℕ → Type 0) (s s' s'' : S)
      → Cleared ps other s s'
      → Cleared qs other s' s''
      → Cleared (ps ++ qs) other s s''
  Cleared-then ps qs other s s' s'' c d = record {
    gone = AllAre-append (here s'') false ps qs (still_gone s' s'' ps d.stay_gone c.gone) d.gone;
    stay_gone = λ q e. d.stay_gone q (c.stay_gone q e);
    keeps_paths =
        λ q n. let (a, b) = append-IsNot q ps qs n in d.keeps_paths q b ∙ c.keeps_paths q a;
    keeps_open = λ h es o e. d.keeps_open h es o (c.keeps_open h es o e);
  }

  -- Fewer directories than are kept open.
  pub Cleared-narrow :
      (ps : List Text) (other fewer : ℕ → Type 0) (s s' : S)
      → ((h : ℕ) (es : Listing) → fewer h → unread s h ≡ some es → other h)
      → Cleared ps other s s'
      → Cleared ps fewer s s'
  Cleared-narrow ps other fewer s s' f c = record {
    gone = c.gone;
    stay_gone = c.stay_gone;
    keeps_paths = c.keeps_paths;
    keeps_open = λ h es o e. c.keeps_open h es (f h es o e) e;
  }
