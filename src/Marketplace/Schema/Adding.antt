-- ===== src/Marketplace/Schema/Adding.antt =====
-- The foreign keys of the handler's tables, as a walk over their list adds them.
use Prim.Native.String.{String}
use mathlib.Core.Path.{subst}
use dwh.Base.{
  ◌≡◌, refl, sym, ◌∙◌, List, [], ◌∷◌, ◌++◌, arith, true, ◌&&◌, All, Bool-cases, inl, inr,
}
use dwh.Database.Tables.{ForeignKey, Tables}
use dwh.Database.Schema.{contains, contains_key, add_key as add_key_to}
use dwh.Marketplace.Schema.Dropping.{may_refer, IsFree}

-- The keys that `Setup` adds, one after another.
abbrev pub add_all : List (ForeignKey × String) → Tables → Tables
add_all [] t = t
add_all ((k, name) ∷ l) t = add_all l (add_key_to k t)

-- Both tables of each key are there.
abbrev pub AllThere : Tables → List (ForeignKey × String) → Type 0
AllThere t = All (λ e. (contains e.0.source t.existing && contains e.0.target t.existing) ≡ true)

pub add_key-existing : (k : ForeignKey) (t : Tables) → (add_key_to k t).existing ≡ t.existing
add_key-existing k t = ground arith

pub add_all-existing :
    (l : List (ForeignKey × String)) (t : Tables) → (add_all l t).existing ≡ t.existing
add_all-existing [] t = refl
add_all-existing ((k, name) ∷ l) t = add_all-existing l (add_key_to k t) ∙ add_key-existing k t

IsFree-append :
    (ks : List ForeignKey) (k : ForeignKey)
    → may_refer k.source k.target ≡ true
    → IsFree [] ks
    → IsFree [] (ks ++ (k ∷ []))
IsFree-append [] k h f = (ground arith, tt)
IsFree-append (j ∷ ks) k h f = (f.0, IsFree-append ks k h f.1)

pub add_key-IsFree :
    (k : ForeignKey) (t : Tables)
    → may_refer k.source k.target ≡ true
    → IsFree [] t.foreign_keys
    → IsFree [] (add_key_to k t).foreign_keys
add_key-IsFree k t h f = elim (Bool-cases (contains_key k t.foreign_keys)) [
  | inl e ↦ rw e f
  | inr e ↦ rw e (IsFree-append t.foreign_keys k h f)
]

pub add_all-IsFree :
    (l : List (ForeignKey × String)) (t : Tables)
    → All (λ e. may_refer e.0.source e.0.target ≡ true) l
    → IsFree [] t.foreign_keys
    → IsFree [] (add_all l t).foreign_keys
add_all-IsFree [] t h f = f
add_all-IsFree ((k, name) ∷ l) t h f =
    add_all-IsFree l (add_key_to k t) h.1 (add_key-IsFree k t h.0 f)

pub AllThere-mono :
    (t u : Tables) (l : List (ForeignKey × String))
    → u.existing ≡ t.existing
    → AllThere t l
    → AllThere u l
AllThere-mono t u l e h =
    subst (λ x. All (λ p. (contains p.0.source x && contains p.0.target x) ≡ true) l) (sym e) h
