-- ===== src/Tool/Registry/Sorted.antt =====
-- The order of List in internal/tool/registry.go.
use mathlib.Core.List.{Perm}
use mathlib.Core.List.Perm
use ssh_bot.Base.{
  ◌≡◌, refl, sym, ◌∙◌, true, false, List, [], ◌∷◌, map, arith, Bytes, bytes_lt, Bool-cases, inl,
  inr,
}
use ssh_bot.Tool.Registry.{Registry, less, insert_sorted, sort, list}
use ssh_bot.Tool.{Tool, Source, builtin, mcp}

bytes_lt_asymm : (s t : Bytes) → bytes_lt s t ≡ true → bytes_lt t s ≡ false
unfolding bytes_lt
bytes_lt_asymm [] [] h = refl
bytes_lt_asymm [] (y ∷ t) h = refl
bytes_lt_asymm (x ∷ s) [] h = cc
bytes_lt_asymm (x ∷ s) (y ∷ t) h = ground (arith, bytes_lt_asymm s t)

less_asymm : (a b : Tool) → less a b ≡ true → less b a ≡ false
unfolding less
less_asymm a b h = ground (arith, bytes_lt_asymm a.name b.name)

-- A built-in tool may stand before any of another source, and a tool before one of its own kind
-- whose name is not smaller.
pub data MayPrecede (t u : Tool) : Type 0 where
  builtin_first : t.source ≡ builtin → u.source ≡ mcp → MayPrecede t u
  by_name : t.source ≡ u.source → bytes_lt u.name t.name ≡ false → MayPrecede t u

less-MayPrecede : (t u : Tool) → less u t ≡ false → MayPrecede t u
unfolding less
less-MayPrecede t u h = by_source t.source u.source refl refl
  where
    by_source : (a b : Source) → t.source ≡ a → u.source ≡ b → MayPrecede t u
    by_source builtin builtin p q = by_name (p ∙ sym q) (rw (p, q) at h)
    by_source builtin mcp p q = builtin_first p q
    by_source mcp builtin p q = absurd (clash (rw (p, q) at h))
      where
        clash : true ≡ false → ⊥
        clash x = cc
    by_source mcp mcp p q = by_name (p ∙ sym q) (rw (p, q) at h)

-- Each tool may stand before the next one.
pub data IsListed : List Tool → Type 0 where
  none_listed : IsListed []
  one_listed : (t : Tool) → IsListed (t ∷ [])
  more_listed :
      {t u : Tool} {us : List Tool} → MayPrecede t u → IsListed (u ∷ us) → IsListed (t ∷ u ∷ us)

-- No tool stands before one that sorts before it.
data IsSorted : List Tool → Type 0 where
  nil : IsSorted []
  one : (t : Tool) → IsSorted (t ∷ [])
  more :
      {t u : Tool} {us : List Tool} → less u t ≡ false → IsSorted (u ∷ us) → IsSorted (t ∷ u ∷ us)

IsSorted-IsListed : {ts : List Tool} → IsSorted ts → IsListed ts
IsSorted-IsListed nil = none_listed
IsSorted-IsListed (one t) = one_listed t
IsSorted-IsListed (more {t = t} {u = u} h s) =
    more_listed (less-MayPrecede t u h) (IsSorted-IsListed s)

insert_behind :
    (t u : Tool) (us : List Tool)
    → less t u ≡ false
    → IsSorted (u ∷ us)
    → IsSorted (insert_sorted t us)
    → IsSorted (u ∷ insert_sorted t us)
unfolding insert_sorted
insert_behind t u [] h s k = more h k
insert_behind t u (v ∷ us) h (more g s) k = elim (Bool-cases (less t v)) [
  | inl e ↦ rw e (more h (rw e at k))
  | inr e ↦ rw e (more g (rw e at k))
]

insert_sorted-IsSorted : (t : Tool) (us : List Tool) → IsSorted us → IsSorted (insert_sorted t us)
unfolding insert_sorted
insert_sorted-IsSorted t [] s = one t
insert_sorted-IsSorted t (u ∷ us) s = elim (Bool-cases (less t u)) [
  | inl e ↦ rw e (more (less_asymm t u e) s)
  | inr e ↦ rw e (insert_behind t u us e s (insert_sorted-IsSorted t us (tail_IsSorted s)))
]
  where
    tail_IsSorted : {x : Tool} {xs : List Tool} → IsSorted (x ∷ xs) → IsSorted xs
    tail_IsSorted (one x) = nil
    tail_IsSorted (more h s) = s

sort-IsSorted : (ts : List Tool) → IsSorted (sort ts)
unfolding sort
sort-IsSorted [] = nil
sort-IsSorted (t ∷ ts) = insert_sorted-IsSorted t (sort ts) (sort-IsSorted ts)

insert_sorted-perm : (t : Tool) (us : List Tool) → Perm (insert_sorted t us) (t ∷ us)
unfolding insert_sorted
insert_sorted-perm t [] = Perm.refl (t ∷ [])
insert_sorted-perm t (u ∷ us) = elim (Bool-cases (less t u)) [
  | inl e ↦ rw e (Perm.refl (t ∷ u ∷ us))
  | inr e ↦ rw e (Perm.trans (Perm.cons u (insert_sorted-perm t us)) (Perm.swap t u us))
]

sort-perm : (ts : List Tool) → Perm (sort ts) ts
unfolding sort
sort-perm [] = Perm.refl []
sort-perm (t ∷ ts) = Perm.trans (insert_sorted-perm t (sort ts)) (Perm.cons t (sort-perm ts))

-- List gives each registered tool as often as it is registered, the built-in tools before the others,
-- and by name among the built-in tools and among the others.
pub list-IsListed : (r : Registry) → IsListed (list r) × Perm (list r) (map (λ e. e.1) r.tools)
unfolding list
list-IsListed r =
    let ts = map (λ e. e.1) r.tools in (IsSorted-IsListed (sort-IsSorted ts), sort-perm ts)
