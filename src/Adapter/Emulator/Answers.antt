-- ===== src/Adapter/Emulator/Answers.antt =====
-- What the adapter answers and what the console of tools/te-rs/src/debug.rs reads of it.
use sw_tos.Adapter.{put24}
use sw_tos.Adapter.Emulator.{
  StopReason, breakpoint, paused, cycle_limit, halted, invalid_instruction, stack_overflow,
  stack_underflow, stop_code, Emulator, stop_payload, backtrace_payload, frame_words, offsets,
}
use sw_tos.Base.{
  ℕ, ◌*◌, ◌%◌, ◌/◌, ◌<◌, List, [], ◌∷◌, ◌++◌, concat, ◌≡◌, refl, ap, arith, Bytes, Text, codes,
  length, All,
}
use sw_tos.Debugger.Console.{DebugConsole, triples}
use sw_tos.Debugger.Responses.{response, respond_4, respond_11, stop_reason, backtrace_response}
use sw_tos.Disasm.{Isa}
use sw_tos.Format.{hex}
use sw_tos.Resource.{u24}

abbrev pub Is24 : ℕ → Type 0
Is24 n = n < 0x1000000

abbrev triple : ℕ → Bytes
triple n = (n % 256) ∷ (n / 256 % 256) ∷ (n / 65536 % 256) ∷ []

abbrev triple_bytes : List ℕ → Bytes
triple_bytes [] = []
triple_bytes (v ∷ vs) = triple v ++ triple_bytes vs

u24-triple : (n : ℕ) → Is24 n → u24 (triple n) ≡ n
unfolding u24
u24-triple n h = omega arith

triples_lem : (vs : List ℕ) → All Is24 vs → triples (triple_bytes vs) ≡ vs
unfolding triples
triples_lem [] h = refl
triples_lem (v ∷ vs) (h, hs) = rw (u24-triple v h, triples_lem vs hs) refl

length-triple_bytes : (vs : List ℕ) → length (triple_bytes vs) ≡ length vs * 3
length-triple_bytes [] = refl
length-triple_bytes (v ∷ vs) = omega (arith, length-triple_bytes vs)

-- The words for the reasons.
abbrev pub reason_text : StopReason → Text
reason_text breakpoint = codes "breakpoint"
reason_text paused = codes "paused"
reason_text cycle_limit = codes "running"
reason_text halted = codes "halted"
reason_text invalid_instruction = codes "invalid instruction"
reason_text stack_overflow = codes "stack overflow"
reason_text stack_underflow = codes "stack underflow"

stop_reason-stop_code : (r : StopReason) → stop_reason (stop_code r) ≡ reason_text r
unfolding stop_reason
stop_reason-stop_code breakpoint = refl
stop_reason-stop_code paused = refl
stop_reason-stop_code cycle_limit = refl
stop_reason-stop_code halted = refl
stop_reason-stop_code invalid_instruction = refl
stop_reason-stop_code stack_overflow = refl
stop_reason-stop_code stack_underflow = refl

respond_11-triple_bytes :
    (c : DebugConsole) (pc fp sp : ℕ) (words : List ℕ)
    → All Is24 (pc ∷ fp ∷ sp ∷ words)
    → respond_11 c (triple_bytes (pc ∷ fp ∷ sp ∷ words)) ≡ backtrace_response c pc fp sp words
unfolding respond_11
respond_11-triple_bytes c pc fp sp words (hp, (hf, (hs, hw))) =
    rw
      (
        length-triple_bytes words,
        triples_lem words hw,
        u24-triple pc hp,
        u24-triple fp hf,
        u24-triple sp hs,
      )
      (ground arith)

module _ {E O : Type 0} (emu : Emulator E) (isa : Isa O) (c : DebugConsole) where
  -- The console shows what the adapter reports of a stop: the reason in words and the address, for
  -- an address of 24 bits.
  pub response-stop_payload :
      (e : E) (r : StopReason)
      → Is24 (emu.pc e)
      → response isa c (stop_payload emu e r)
        ≡ (c, concat (reason_text r ∷ codes " at " ∷ hex 6 (emu.pc e) ∷ []) ∷ [])
  unfolding response respond_4 stop_payload put24
  response-stop_payload e r h = rw (u24-triple (emu.pc e) h, stop_reason-stop_code r) refl

  -- A frame of the stack that the adapter answers is what the console shows: the program counter,
  -- the frame and stack pointers and eight words, of 24 bits each.
  pub response-backtrace_payload :
      (e : E)
      → Is24 (emu.snapshot e).pc
      → Is24 ((emu.snapshot e).regs 3)
      → Is24 ((emu.snapshot e).regs 4)
      → All Is24 (frame_words emu e ((emu.snapshot e).regs 3) offsets)
      → response isa c (backtrace_payload emu e) ≡ (
        c,
        backtrace_response c
            (emu.snapshot e).pc
            ((emu.snapshot e).regs 3)
            ((emu.snapshot e).regs 4)
            (frame_words emu e ((emu.snapshot e).regs 3) offsets),
      )
  unfolding response backtrace_payload respond_11
  response-backtrace_payload e hp hf hs hw =
      ap (λ s. (c, s))
        (respond_11-triple_bytes c (emu.snapshot e).pc ((emu.snapshot e).regs 3)
          ((emu.snapshot e).regs 4) (frame_words emu e ((emu.snapshot e).regs 3) offsets)
          (hp, (hf, (hs, hw))))
