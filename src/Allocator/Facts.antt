-- ===== src/Allocator/Facts.antt =====
-- What the small commands of the allocator do in a state where they do not fault.
use mathlib.Core.Path.{fun_ext}
use opearting_system.Base.{
  ℕ, ◌+◌, ◌-◌, ◌*◌, ◌/◌, ◌%◌, ◌^◌, ◌≤◌, ◌<◌, ◌≡◌, refl, ◌≢◌, ◌⊎◌, inl, inr, ap, ◌∙◌, true, false,
  arith, ◌==◌, if◌then◌else◌, ==-refl,
}
use opearting_system.Base.Int.{
  ℤ, pos, sub_ℕ, to_int-pos, pos-add-pos, pos-sub-pos, pos-div, pos-mul-pos,
}
use opearting_system.Allocator.State.{
  Ptr, null, block_header, return_with_error, Node, Globals, done, inside, mapped, update, load,
  set_next, set_prev, set_next_free, set_status,
}
use opearting_system.Allocator.Blocks.{round_to, get_block_size}

pub inside_lem :
    (base size p : ℕ)
    → base + block_header ≤ p
    → p + block_header ≤ base + size
    → inside base size p ≡ true
unfolding inside
inside_lem base size p lo hi = ground arith

pub inside-ne-null : (base size p : ℕ) → inside base size p ≡ true → (p == null) ≡ false
unfolding inside
inside-ne-null base size p h = ground arith

pub update_self : (f : Ptr → Node) (p : Ptr) (n : Node) → update f p n p ≡ n
unfolding update
update_self f p n = rw ==-refl

pub update-ne : (f : Ptr → Node) (p q : Ptr) (n : Node) → q ≢ p → update f p n q ≡ f q
unfolding update
update-ne f p q n h = ground arith

pub update-update :
    (f : Ptr → Node) (p : Ptr) (m n : Node) → update (update f p m) p n ≡ update f p n
unfolding update
update-update f p m n = fun_ext λ q. ground arith

module _ (g : Globals) (p : Ptr) (ok : mapped g.global_head p ≡ true) where
  pub load_lem : load p g ≡ done (g.heap p) g
  unfolding load
  load_lem = rw ok

  pub set_next_lem :
      (q : Ptr)
      → set_next p q g
        ≡ done tt (record g { heap = update g.heap p (record (g.heap p) { next = q }) })
  unfolding set_next
  set_next_lem q = ground arith

  pub set_prev_lem :
      (q : Ptr)
      → set_prev p q g
        ≡ done tt (record g { heap = update g.heap p (record (g.heap p) { prev = q }) })
  unfolding set_prev
  set_prev_lem q = ground arith

  pub set_next_free_lem :
      (q : Ptr)
      → set_next_free p q g
        ≡ done tt (record g { heap = update g.heap p (record (g.heap p) { next_free = q }) })
  unfolding set_next_free
  set_next_free_lem q = ground arith

  pub set_status_lem :
      (s : ℕ)
      → set_status p s g
        ≡ done tt (record g { heap = update g.heap p (record (g.heap p) { status = s }) })
  unfolding set_status
  set_status_lem s = ground arith

-- The value of `get_block_size` where it does not fault.
abbrev pub bytes_at : Globals → Ptr → ℤ
bytes_at g p =
    if p == null
    then return_with_error
    else if (g.heap p).next == null
    then g.last_block_size
    else sub_ℕ (g.heap p).next (p + block_header)

pub get_block_size_lem :
    (g : Globals) (p : Ptr)
    → mapped g.global_head p ≡ true
    → get_block_size p g ≡ done (bytes_at g p) g
unfolding get_block_size
get_block_size_lem g p ok = ground arith

pub get_block_size-null : (g : Globals) → get_block_size null g ≡ done return_with_error g
unfolding get_block_size
get_block_size-null g = refl

-- Whatever a cache holds, its block has some size.
pub sized :
    (g : Globals) (s : Ptr)
    → (s ≡ null) ⊎ (mapped g.global_head s ≡ true)
    → (z : ℤ) × (get_block_size s g ≡ done z g)
sized g s (inl e) = (return_with_error, rw e (get_block_size-null g))
sized g s (inr ok) = (bytes_at g s, get_block_size_lem g s ok)

-- `round_to` rounds a positive `int` up to the next multiple of its base, if an `int` holds that.
pub round_to-pos :
    (n b : ℕ)
    → 0 < n
    → n < 2 ^ 31
    → (n - 1) / b * b + b < 2 ^ 31
    → round_to (pos n) b ≡ pos ((n - 1) / b * b + b)
unfolding round_to
round_to-pos n b low high fits =
    rw
      (
        to_int-pos n high,
        pos-sub-pos n 1 low,
        to_int-pos (n - 1) (omega arith),
        pos-div,
        pos-mul-pos,
        to_int-pos ((n - 1) / b * b) (omega arith),
        pos-add-pos,
      )
      (to_int-pos ((n - 1) / b * b + b) fits)

pub round_to-block : (n : ℕ) → 0 < n → n % 8 ≡ 0 → n < 2 ^ 31 → round_to (pos n) 8 ≡ pos n
round_to-block n low mult high = round_to-pos n 8 low high (omega arith) ∙ ap pos (omega arith)
