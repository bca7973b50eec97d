-- ===== src/Constants.antt =====
-- arm_simulator-1.4/arm_constants.h: modes, exceptions, CPSR bits and the places of the registers.
pub mod Names
use arm_processor_simulator.Base.{ℕ, Bool, ◌||◌, ◌==◌}

-- The processor modes, as the low five bits of the CPSR.
abbrev pub usr : ℕ
usr = 0b10000

abbrev pub fiq : ℕ
fiq = 0b10001

abbrev pub irq : ℕ
irq = 0b10010

abbrev pub svc : ℕ
svc = 0b10011

abbrev pub abt : ℕ
abt = 0b10111

abbrev pub und : ℕ
und = 0b11011

abbrev pub sys : ℕ
sys = 0b11111

-- The exceptions, which are also the results of `arm_step`.
abbrev pub reset : ℕ
reset = 1

abbrev pub undefined_instruction : ℕ
undefined_instruction = 2

abbrev pub software_interrupt : ℕ
software_interrupt = 3

abbrev pub prefetch_abort : ℕ
prefetch_abort = 4

abbrev pub data_abort : ℕ
data_abort = 5

abbrev pub interrupt : ℕ
interrupt = 6

abbrev pub fast_interrupt : ℕ
fast_interrupt = 7

-- The flags.
abbrev pub n_bit : ℕ
n_bit = 31

abbrev pub z_bit : ℕ
z_bit = 30

abbrev pub c_bit : ℕ
c_bit = 29

abbrev pub v_bit : ℕ
v_bit = 28

-- Indices into the 37 registers.
abbrev pub sp : ℕ
sp = 13

abbrev pub lr : ℕ
lr = 14

abbrev pub pc : ℕ
pc = 15

abbrev pub cpsr : ℕ
cpsr = 16

abbrev pub r13_svc : ℕ
r13_svc = 17

abbrev pub r13_abt : ℕ
r13_abt = 20

abbrev pub r13_und : ℕ
r13_und = 23

abbrev pub r13_irq : ℕ
r13_irq = 26

abbrev pub r8_fiq : ℕ
r8_fiq = 29

-- The seven modes of arm_constants.h.
abbrev pub is_mode : ℕ → Bool
is_mode m = m == usr || m == fiq || m == irq || m == svc || m == abt || m == und || m == sys
