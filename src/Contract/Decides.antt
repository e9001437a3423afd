-- ===== src/Contract/Decides.antt =====
-- A run that ended with the right answer about a statement: `ok` where it holds, an error where it
-- does not. A run that met the end of its fuel has no answer.
use mathlib.Core.Path.{subst}
use echo_mcp.Prelude.{◌≡◌, ◌≢◌, refl, Bool, true, false, if◌then◌else◌}
use echo_mcp.Failure.{
  plain, load_error, validation_error, operation_error, out_of_fuel, Result, ok, err, ◌>>◌,
}

abbrev pub Decides : Type 0 → Result (Unit {0}) → Type 0
Decides G (ok _) = G
Decides G (err (plain _)) = ¬ G
Decides G (err (load_error _)) = ¬ G
Decides G (err (validation_error _)) = ¬ G
Decides G (err (operation_error _)) = ¬ G
Decides G (err out_of_fuel) = ⊥

-- A statement with the same truth is decided too.
pub Decides-map :
    (G H : Type 0) (r : Result (Unit {0})) → (G → H) → (H → G) → Decides G r → Decides H r
Decides-map G H (ok _) to from d = to d
Decides-map G H (err (plain _)) to from d = λ h. d (from h)
Decides-map G H (err (load_error _)) to from d = λ h. d (from h)
Decides-map G H (err (validation_error _)) to from d = λ h. d (from h)
Decides-map G H (err (operation_error _)) to from d = λ h. d (from h)
Decides-map G H (err out_of_fuel) to from d = d

-- Two runs in a row decide both statements; the second may rely on the first.
pub Decides->> :
    (G H : Type 0) (m k : Result (Unit {0}))
    → Decides G m
    → (G → Decides H k)
    → Decides (G × H) (m >> k)
Decides->> G H (ok _) k d f = Decides-map H (G × H) k (λ h. (d, h)) (λ p. p.1) (f d)
Decides->> G H (err (plain _)) k d f = λ p. d p.0
Decides->> G H (err (load_error _)) k d f = λ p. d p.0
Decides->> G H (err (validation_error _)) k d f = λ p. d p.0
Decides->> G H (err (operation_error _)) k d f = λ p. d p.0
Decides->> G H (err out_of_fuel) k d f = d

-- The two branches of a test.
pub Decides-if :
    (G : Type 0) (b : Bool) (m k : Result (Unit {0}))
    → (b ≡ true → Decides G m)
    → (b ≡ false → Decides G k)
    → Decides G (if b then m else k)
Decides-if G true m k f g = f refl
Decides-if G false m k f g = g refl

pub Decides→ok : (G : Type 0) (r : Result (Unit {0})) → Decides G r → G → r ≡ ok tt
Decides→ok G (ok tt) d g = refl
Decides→ok G (err (plain _)) d g = absurd (d g)
Decides→ok G (err (load_error _)) d g = absurd (d g)
Decides→ok G (err (validation_error _)) d g = absurd (d g)
Decides→ok G (err (operation_error _)) d g = absurd (d g)
Decides→ok G (err out_of_fuel) d g = absurd d

pub ok→Decides : (G : Type 0) (r : Result (Unit {0})) → Decides G r → r ≡ ok tt → G
ok→Decides G r d e = subst (Decides G) e d

pub Decides-ends : (G : Type 0) (r : Result (Unit {0})) → Decides G r → r ≢ err out_of_fuel
Decides-ends G r d e = subst (Decides G) e d
