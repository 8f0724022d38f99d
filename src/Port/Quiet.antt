-- ===== src/Port/Quiet.antt =====
-- Ports with nothing behind them, on which the parts are run.
use alphix.Port.{Bus}

abbrev pub quiet : Bus
quiet = record { State = Unit {0}; outb = λ port v s. s; inb = λ port s. (0, s) }
