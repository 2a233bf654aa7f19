-- ===== src/Prune/Files.antt =====
-- A written shard read back.
use glm_5_2_gb.Common.{
  ℕ, ◌+◌, ◌-◌, ◌≡◌, refl, ap, ◌∙◌, arith, Option, none, some, List, [], ◌∷◌, ◌++◌, length,
  length-append, ◌>>=◌, take-append, take-length, if◌then◌else◌, Bool-cases, inl, inr,
}
use mathlib.Core.Path.{ap₂}
use mathlib.Core.List.{append_assoc}
use glm_5_2_gb.Prune.{
  Name, or_else, Tensor, HeaderEntry, lookup, same_name, slice, header_from, payload, read_tensor,
}
use glm_5_2_gb.Prune.Rows.{drop-append}

-- What `read_tensor` makes of an entry.
abbrev read_entry : List ℕ → HeaderEntry → Tensor
read_entry buf m = record { dtype = m.dtype; shape = m.shape; bytes = slice m.start m.end buf }

abbrev pub map_option : {A B : Type 0} → (A → B) → Option A → Option B
map_option f none = none
map_option f (some x) = some (f x)

pub map-or_else :
    {A B : Type 0} (f : A → B) (x y : Option A)
    → map_option f (or_else x y) ≡ or_else (map_option f x) (map_option f y)
map-or_else f none y = refl
map-or_else f (some x) y = refl

bind-map : {A B : Type 0} (f : A → B) (x : Option A) → (x >>= λ a. some (f a)) ≡ map_option f x
bind-map f none = refl
bind-map f (some x) = refl

slice-payload :
    (before bytes after : List ℕ)
    → slice (length before) (length before + length bytes) (before ++ (bytes ++ after)) ≡ bytes
slice-payload before bytes after =
    let size : length before + length bytes - length before ≡ length bytes = omega arith in
    rw (size, drop-append (length before) before (bytes ++ after) refl)
      (take-append (length bytes) bytes after (omega arith) ∙ take-length (length bytes) bytes refl)

-- Behind the data of other tensors, the entries of `ts` are read as `ts`.
lookup-header_from :
    (before : List ℕ) (ts : List (Name × Tensor)) (name : Name)
    → map_option (read_entry (before ++ payload ts)) (lookup (header_from (length before) ts) name)
      ≡ lookup ts name
unfolding header_from payload lookup
lookup-header_from before [] name = refl
lookup-header_from before ((n, t) ∷ ts) name =
    map-or_else (read_entry whole) (lookup (header_from (length before + length t.bytes) ts) name) _
    ∙ ap₂ or_else
        (rw (length-append before t.bytes, append_assoc) at
          (lookup-header_from (before ++ t.bytes) ts name))
        here
  where
    whole : List ℕ
    whole = before ++ (t.bytes ++ payload ts)

    here :
        map_option (read_entry whole) (
          if same_name n name
          then some (record {
            dtype = t.dtype;
            shape = t.shape;
            start = length before;
            end = length before + length t.bytes;
          })
          else none)
        ≡ (if same_name n name then some t else none)
    here = elim (Bool-cases (same_name n name)) [
      | inl e ↦ rw e (
          ap (λ b. some (record { dtype = t.dtype; shape = t.shape; bytes = b }))
            (slice-payload before t.bytes (payload ts)))
      | inr e ↦ rw e refl
    ]

-- By any name, reading a written shard at the offsets of its header gives the dtype, the shape and
-- the bytes of the last tensor written under that name, and nothing for a name that was not
-- written.
pub read-write :
    (ts : List (Name × Tensor)) (name : Name)
    → read_tensor (header_from 0 ts) (payload ts) name ≡ lookup ts name
unfolding read_tensor
read-write ts name =
    bind-map (read_entry (payload ts)) (lookup (header_from 0 ts) name)
    ∙ lookup-header_from [] ts name
