-- ===== src/InputBlock/Block.antt =====
-- The hooks of windows/runner/input_block.cpp that swallow the local keyboard and mouse:
-- `KeyboardLLProc`, `MouseLLProc`, `InputBlockThread`, `EnsureThread` and the two exported calls.
use ligament_apps.Common.{
  ℕ, ◌≡◌, refl, Bool, true, false, ◌&&◌, ◌||◌, arith, ◌==◌, if◌then◌else◌, not,
}
use Prim.Native.Nat.{bit_and}
use ligament_apps.Common.Integers.{ℤ, pos, negsuc, is_negative}

-- The globals: `g_blocked`, and whether `g_kbd_hook`, `g_mouse_hook` and `g_thread` are there.
pub record Block : Type 0 where
  pub blocked : Bool
  pub kbd_hook : Bool
  pub mouse_hook : Bool
  pub has_thread : Bool

abbrev pub unblocked : Block
unblocked = record { blocked = false; kbd_hook = false; mouse_hook = false; has_thread = false }

-- Whether Windows makes the event and the thread, gives the thread its hooks, and whether these are
-- there before the wait for them ends; and whether `EnsureThread` raises an exception.
pub record Start : Type 0 where
  pub event_made : Bool
  pub thread_made : Bool
  pub kbd_given : Bool
  pub mouse_given : Bool
  pub in_time : Bool
  pub raises : Bool

-- What becomes of an input: a hook that is not there passes it on. 0x10 is LLKHF_INJECTED, 1 is
-- LLMHF_INJECTED.
unfoldable pub keyboard_ll_proc : ℤ → ℕ → Block → Bool
keyboard_ll_proc n_code flags b =
    b.kbd_hook && (not (is_negative n_code) && (b.blocked && bit_and flags 0x10 == 0))

unfoldable pub mouse_ll_proc : ℤ → ℕ → Block → Bool
mouse_ll_proc n_code flags b =
    b.mouse_hook && (not (is_negative n_code) && (b.blocked && bit_and flags 1 == 0))

-- The start of `InputBlockThread`.
unfoldable pub input_block_thread : Start → Block → Block
input_block_thread s b = record b { kbd_hook = s.kbd_given; mouse_hook = s.mouse_given }

-- With no event there is no wait: the hooks come later.
unfoldable pub ensure_thread : Start → Block → Block
unfolding input_block_thread
ensure_thread s b =
    if b.has_thread || not s.thread_made
    then b
    else let running = record b { has_thread = true } in
      if s.event_made && s.in_time then input_block_thread s running else running

unfoldable pub install_input_block : Start → Block → Block × ℤ
unfolding ensure_thread
install_input_block s b =
    if s.raises
    then (b, negsuc 1)
    else let c = record (ensure_thread s b) { blocked = true } in
      (c, if c.kbd_hook && c.mouse_hook then pos 0 else negsuc 0)

unfoldable pub remove_input_block : Block → Block × ℤ
remove_input_block b = (record b { blocked = false }, pos 0)

-- The physical input of both kinds is swallowed, and the injected one is not.
abbrev pub Swallows : Block → Type 0
Swallows b =
    (n : ℕ) (flags : ℕ)
    → (keyboard_ll_proc (pos n) flags b ≡ (bit_and flags 0x10 == 0))
      × (mouse_ll_proc (pos n) flags b ≡ (bit_and flags 1 == 0))

abbrev pub Passes : Block → Type 0
Passes b =
    (n : ℤ) (flags : ℕ) → (keyboard_ll_proc n flags b ≡ false) × (mouse_ll_proc n flags b ≡ false)

Passes-unblocked : (b : Block) → b.blocked ≡ false → Passes b
unfolding keyboard_ll_proc mouse_ll_proc
Passes-unblocked b e n flags = ground (arith, e)

Swallows-hooked :
    (b : Block) → b.blocked ≡ true → b.kbd_hook ≡ true → b.mouse_hook ≡ true → Swallows b
unfolding keyboard_ll_proc mouse_ll_proc
Swallows-hooked b e k m n flags = ground (arith, e, k, m)

-- Where the installation of the block answers 0, the hooks swallow every input that is not
-- injected; after the block is removed they pass it on.
pub install-Swallows :
    (s : Start) (b : Block)
    → (install_input_block s b).1 ≡ pos 0
    → Swallows (install_input_block s b).0
      × Passes (remove_input_block (install_input_block s b).0).0
unfolding install_input_block remove_input_block
install-Swallows s b h = (
  Swallows-hooked (install_input_block s b).0 (ground (arith, h)) (ground (arith, h))
      (ground (arith, h)),
  Passes-unblocked (record (install_input_block s b).0 { blocked = false }) refl,
)
