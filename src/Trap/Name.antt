-- ===== src/Trap/Name.antt =====
-- `trapname` of trap.c.
use at_jos.Base.{ℕ, Option, none, some, List, [], ◌∷◌, ◌==◌, if◌then◌else◌}
use at_jos.Base.{get_elem?}
use at_jos.Format.Directive.{text}

abbrev pub excnames : List (List ℕ)
excnames =
    text "Divide error"
    ∷ text "Debug"
    ∷ text "Non-Maskable Interrupt"
    ∷ text "Breakpoint"
    ∷ text "Overflow"
    ∷ text "BOUND Range Exceeded"
    ∷ text "Invalid Opcode"
    ∷ text "Device Not Available"
    ∷ text "Double Fault"
    ∷ text "Coprocessor Segment Overrun"
    ∷ text "Invalid TSS"
    ∷ text "Segment Not Present"
    ∷ text "Stack Fault"
    ∷ text "General Protection"
    ∷ text "Page Fault"
    ∷ text "(unknown trap)"
    ∷ text "x87 FPU Floating-Point Error"
    ∷ text "Alignment Check"
    ∷ text "Machine-Check"
    ∷ text "SIMD Floating-Point Exception"
    ∷ []

abbrev pub named_or : List ℕ → Option (List ℕ) → List ℕ
named_or other none = other
named_or other (some name) = name

-- The number of the trap for system calls, `T_SYSCALL`, is a parameter. A negative number, which the
-- comparison with `sizeof` makes large, stands as its 32-bit word.
unfoldable pub trapname : ℕ → ℕ → List ℕ
trapname t_syscall trapno =
    named_or (if trapno == t_syscall then text "System call" else text "(unknown trap)")
      (get_elem? excnames trapno)
