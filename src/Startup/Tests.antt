-- ===== src/Startup/Tests.antt =====
-- The starts of the programs with steps that fail (NUCServer/NUCServer/Server.cpp,
-- MyoNucMotor/MyoNucMotor/main.cpp).
use myodesignproject.Base.{◌≡◌, refl, Bool, true, false}
use myodesignproject.Startup.{Action, open_port, start, looping, main_startup}

abbrev pub no_port : Action → Bool
no_port open_port = false
no_port _ = true

abbrev pub all : Action → Bool
all _ = true

all_reach_loop : (start all main_startup).1 ≡ looping
unfolding start
all_reach_loop = refl
