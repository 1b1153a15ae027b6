-- ===== src/Sessions/Ends.antt =====
-- What is open when `main` is left: MyoNucMotor/MyoNucMotor/main.cpp (the section MAIN) and
-- MyoWin/MyoWin/main.cpp.
use myodesignproject.Base.{ℕ, ◌≡◌, Bool, Option, List}
use myodesignproject.Sensor.{Float, Sensor}
use myodesignproject.Collector.Sdk.{Sdk}
use myodesignproject.Collector.{Collector, Event}
use myodesignproject.Serial.Win32.{Win32, IsWin32}
use myodesignproject.Serial.{closed, open_port}
use myodesignproject.Serial.Handles.{open_port-Owned}
use myodesignproject.Startup.{Action}
use myodesignproject.Exits.{HubRun}
use myodesignproject.Sessions.{settings, in_try, out_of_try}
use myodesignproject.Sessions.Programs.{
  prepared, greet_on, main_session_round, main_session, win_session_round, win_session,
}
use myodesignproject.Sockets.Calls.{Winsock}
use myodesignproject.Sockets.{connect}
use myodesignproject.Sessions.Client.{
  LeavesHandles, connect-HoldsBoth, with_client-Keeps, main_session_round-Holds,
}
use myodesignproject.Sessions.Handles.{
  Kept, Keeps, left_rounds-Keeps, started-Kept, opened-Kept, finish-Kept, session_rounds-Holds,
  greet_on-Holds, prepared-Holds, win_session_round-Holds, token-Kept, in_try-Kept, out_of_try-Kept,
}

module _ {W : Type 0} {api : Win32 W} (lawful : IsWin32 api) (base : List ℕ) where
  main_session-Keeps :
      {ws : Winsock W} (leaves : LeavesHandles ws lawful.handles) (sdk : Sdk)
      (stof : List ℕ → Option Float) (serialize_to : Sensor → List ℕ → List ℕ)
      (succeeds : Action → Bool) (name : List ℕ) (bufsiz : ℕ) (inputs : List (List (Event sdk)))
      (hub_run : HubRun) (buff tcp_buffer : List ℕ) (w : W)
      → lawful.handles w ≡ base
      → Keeps lawful base (
          main_session api ws sdk stof serialize_to succeeds name bufsiz inputs hub_run buff
            tcp_buffer w)
  unfolding main_session
  main_session-Keeps {ws = ws} leaves sdk stof serialize_to succeeds name bufsiz inputs hub_run buff
        tcp_buffer w h =
      started-Kept lawful base _ closed w _ h (
        opened-Kept lawful base (open_port api name settings closed w) _
          (open_port-Owned lawful base name settings closed w h)
          λ p w1 h1.
            finish-Kept lawful base p (in_try api p)
              (greet_on api bufsiz p buff (prepared api p w1)) _
              (greet_on-Holds lawful base p bufsiz buff (prepared api p w1)
                (prepared-Holds lawful base p w1 h1))
              (in_try-Kept lawful base p)
              λ b w2 h2.
                with_client-Keeps lawful base leaves p (connect ws w2) _
                  (connect-HoldsBoth lawful base leaves p w2 h2)
                  λ client w3 h3.
                    finish-Kept lawful base p (in_try api p) _ _
                      (session_rounds-Holds lawful base p
                        (main_session_round api ws sdk stof serialize_to p client)
                        (main_session_round-Holds lawful base leaves p sdk stof serialize_to client)
                        inputs _ w3 h3)
                      (in_try-Kept lawful base p)
                      λ c w4 h4. left_rounds-Keeps lawful base hub_run p w4 h4)

  win_session-Keeps :
      (sdk : Sdk) (handler : sdk.Quaternion → Collector sdk → Collector sdk) (period : ℕ)
      (succeeds : Action → Bool) (name : List ℕ) (inputs : List (List (Event sdk)))
      (hub_run : HubRun) (buff : List ℕ) (w : W)
      → lawful.handles w ≡ base
      → Keeps lawful base (win_session api sdk handler period succeeds name inputs hub_run buff w)
  unfolding win_session
  win_session-Keeps sdk handler period succeeds name inputs hub_run buff w h =
      opened-Kept lawful base (open_port api name settings closed w) _
        (open_port-Owned lawful base name settings closed w h)
        λ p w1 h1.
          finish-Kept lawful base p (out_of_try api p)
            (greet_on api 1024 p buff (prepared api p w1)) _
            (greet_on-Holds lawful base p 1024 buff (prepared api p w1)
              (prepared-Holds lawful base p w1 h1))
            (out_of_try-Kept lawful base p)
            λ b w2 h2. token-Kept lawful base b _ (
              started-Kept lawful base _ p w2 _ h2 (
                finish-Kept lawful base p (in_try api p) _ _
                  (session_rounds-Holds lawful base p (win_session_round api sdk handler period p)
                    (win_session_round-Holds lawful base p sdk handler period) inputs _ w2 h2)
                  (in_try-Kept lawful base p)
                  λ c w3 h3. left_rounds-Keeps lawful base hub_run p w3 h3))

  -- With a system that keeps to IsWin32, and calls of Winsock that leave the handles of CreateFile
  -- as they are: whichever calls fail, whatever is read, and whether hub.run throws behind the
  -- given rounds or not: where main of the section MAIN returns, it returns 1 and no handle of
  -- CreateFile is open that was not before; where ErrorHandling exits, it exits with 1, and then
  -- and in the loop at most one port's handle is open beyond those.
  pub main_session-Kept :
      {ws : Winsock W} (leaves : LeavesHandles ws lawful.handles) (sdk : Sdk)
      (stof : List ℕ → Option Float) (serialize_to : Sensor → List ℕ → List ℕ)
      (succeeds : Action → Bool) (name : List ℕ) (bufsiz : ℕ) (inputs : List (List (Event sdk)))
      (hub_run : HubRun) (buff tcp_buffer : List ℕ) (w : W)
      → lawful.handles w ≡ base
      → Kept lawful base (
          main_session api ws sdk stof serialize_to succeeds name bufsiz inputs hub_run buff
            tcp_buffer w)
  main_session-Kept leaves sdk stof serialize_to succeeds name bufsiz inputs hub_run buff tcp_buffer
        w h =
      (main_session-Keeps leaves sdk stof serialize_to succeeds name bufsiz inputs hub_run buff
        tcp_buffer w h).kept

  -- With a system that keeps to IsWin32, whichever steps succeed, whatever is read, however the
  -- Windows calls fail, and whether hub.run throws behind the given rounds or not: where main of
  -- the client returns, it returns 1 and no handle is open that was not before; and in its loop at
  -- most the handle of its port is open beyond those.
  pub win_session-Kept :
      (sdk : Sdk) (handler : sdk.Quaternion → Collector sdk → Collector sdk) (period : ℕ)
      (succeeds : Action → Bool) (name : List ℕ) (inputs : List (List (Event sdk)))
      (hub_run : HubRun) (buff : List ℕ) (w : W)
      → lawful.handles w ≡ base
      → Kept lawful base (win_session api sdk handler period succeeds name inputs hub_run buff w)
  win_session-Kept sdk handler period succeeds name inputs hub_run buff w h =
      (win_session-Keeps sdk handler period succeeds name inputs hub_run buff w h).kept
