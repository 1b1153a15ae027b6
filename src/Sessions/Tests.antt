-- ===== src/Sessions/Tests.antt =====
-- Sessions of the programs (MyoNucMotor/MyoNucMotor/main.cpp, MyoWin/MyoWin/main.cpp) on a small operating system.
use myodesignproject.Base.{ℕ, refl, true, some, List, [], ◌∷◌, length}
use myodesignproject.Sockets.Calls.{Winsock}
use myodesignproject.Sessions.Client.{LeavesHandles}
use myodesignproject.Line.Tests.{digit}
use myodesignproject.Collector.WinCopy.{win_on_orientation_data}
use myodesignproject.Collector.Tests.{whole}
use myodesignproject.Command.Tests.{array_12}
use myodesignproject.Startup.Tests.{all}
use myodesignproject.Serial.Tests.{small, small-IsWin32, small-handles}
use myodesignproject.Controller.Tests.{keep_rest, array_25}
use myodesignproject.Exits.{fails}
use myodesignproject.Sessions.Programs.{main_session, win_session}
use myodesignproject.Sessions.Handles.{Kept}
use myodesignproject.Sessions.Ends.{main_session-Kept, win_session-Kept}

-- Its calls of Winsock succeed, and give the sockets 3 and 4.
abbrev sockets : Winsock (List ℕ)
sockets = record {
  htons = λ n. n;
  htonl = λ n. n;
  wsa_startup = λ version w. (true, w);
  socket = λ family type protocol w. (some 3, w);
  bind = λ s a w. (true, w);
  listen = λ s backlog w. (true, w);
  accept = λ s w. (some 4, w);
  send = λ s bytes w. (some (length bytes), w);
}

sockets-LeavesHandles : LeavesHandles sockets small-IsWin32.handles
sockets-LeavesHandles = record {
  wsa_startup_leaves = λ version w. refl;
  socket_leaves = λ family type protocol w. refl;
  bind_leaves = λ s a w. refl;
  listen_leaves = λ s backlog w. refl;
  accept_leaves = λ s w. refl;
  send_leaves = λ s bytes w. refl;
}

main_session-Kept_example : Kept small-IsWin32 (7 ∷ []) (
    main_session small sockets whole digit keep_rest all
      (67 ∷ [])
      12
      ([] ∷ [])
      fails
      array_12
      array_25
      (7 ∷ []))
main_session-Kept_example =
    main_session-Kept small-IsWin32 (7 ∷ []) sockets-LeavesHandles whole digit keep_rest all
      (67 ∷ []) 12 ([] ∷ []) fails array_12 array_25 (7 ∷ []) (small-handles (7 ∷ []))

win_session-Kept_example : Kept small-IsWin32 (7 ∷ []) (
    win_session small whole
      (win_on_orientation_data whole)
      100
      all
      []
      ([] ∷ [])
      fails
      array_12
      (7 ∷ []))
win_session-Kept_example =
    win_session-Kept small-IsWin32 (7 ∷ []) whole (win_on_orientation_data whole) 100 all []
      ([] ∷ []) fails array_12 (7 ∷ []) (small-handles (7 ∷ []))
