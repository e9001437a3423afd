-- ===== src/Control/Interleaved/Invariant.antt =====
-- internal/control and internal/httpserver: invariants of the turns of all calls.
use echo_mcp.Prelude.{ℕ, zero, suc, ◌≡◌, refl, Option, none, some, List, [], ◌∷◌, ◌++◌, All}
use echo_mcp.Contract.Document.{Codec}
use echo_mcp.Control.Files.{Files}
use echo_mcp.Control.Plane.{LocalPlane}
use echo_mcp.Control.Interleaved.{
  Task, begin, turn, Process, put, take_turn, Happening, arrives, runs, happen, run,
}

module _ (files : Files) (codec : Codec) (I : LocalPlane → Type 0)
    (J : LocalPlane → Task → Type 0) where
  -- A turn keeps the invariant I of the plane and the invariant J of a call, of the call itself and of
  -- any other.
  pub record IsKept : Type 0 where
    pub plane : (p : LocalPlane) (t : Task) → I p → J p t → I (turn files codec p t).1
    pub rest :
        (p : LocalPlane) (t u : Task)
        → I p
        → J p t
        → (turn files codec p t).0 ≡ some u
        → J (turn files codec p t).1 u
    pub other : (p : LocalPlane) (t u : Task) → I p → J p t → J p u → J (turn files codec p t).1 u

  -- The calls that arrive have the invariant, whatever the plane is.
  abbrev pub Begins : Happening → Type 0
  Begins (arrives c) = (p : LocalPlane) → J p (begin c)
  Begins (runs n) = Unit

  abbrev pub Holds : Process → Type 0
  Holds s = I s.plane × All (J s.plane) s.tasks

  module _ (kept : IsKept) where
    All-other :
        (p : LocalPlane) (t : Task) (ts : List Task)
        → I p
        → J p t
        → All (J p) ts
        → All (J (turn files codec p t).1) ts
    All-other p t [] i j h = tt
    All-other p t (u ∷ ts) i j h = (kept.other p t u i j h.0, All-other p t ts i j h.1)

    All-put :
        (p : LocalPlane) (o : Option Task) (ts : List Task)
        → ((u : Task) → o ≡ some u → J p u)
        → All (J p) ts
        → All (J p) (put o ts)
    All-put p none ts f h = h
    All-put p (some u) ts f h = (f u refl, h)

    -- A turn also keeps what another call holds.
    take_turn-keeps :
        (n : ℕ) (p : LocalPlane) (ts : List Task)
        → I p
        → All (J p) ts
        → Holds (take_turn files codec n p ts)
          × ((u : Task) → J p u → J (take_turn files codec n p ts).plane u)
    unfolding take_turn
    take_turn-keeps n p [] i h = ((i, tt), λ u j. j)
    take_turn-keeps zero p (t ∷ ts) i h = (
      (
        kept.plane p t i h.0,
        All-put (turn files codec p t).1 (turn files codec p t).0 ts
            (λ u e. kept.rest p t u i h.0 e) (All-other p t ts i h.0 h.1),
      ),
      λ u j. kept.other p t u i h.0 j,
    )
    take_turn-keeps (suc n) p (t ∷ ts) i h =
        let r = take_turn-keeps n p ts i h.1 in ((r.0.0, (r.1 t h.0, r.0.1)), r.1)

    All-append :
        (p : LocalPlane) (ts : List Task) (t : Task)
        → All (J p) ts
        → J p t
        → All (J p) (ts ++ t ∷ [])
    All-append p [] t h j = (j, tt)
    All-append p (u ∷ ts) t h j = (h.0, All-append p ts t h.1 j)

    happen-keeps :
        (s : Process) (h : Happening) → Begins h → Holds s → Holds (happen files codec s h)
    unfolding happen
    happen-keeps s (arrives c) b i = (i.0, All-append s.plane s.tasks (begin c) i.1 (b s.plane))
    happen-keeps s (runs n) b i = (take_turn-keeps n s.plane s.tasks i.0 i.1).0

    pub run-keeps :
        (s : Process) (hs : List Happening) → All Begins hs → Holds s → Holds (run files codec s hs)
    unfolding run
    run-keeps s [] b i = i
    run-keeps s (h ∷ hs) b i = run-keeps (happen files codec s h) hs b.1 (happen-keeps s h b.0 i)
