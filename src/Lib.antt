-- ===== src/Lib.antt =====
-- opensamp: a client for SA-MP servers, as a library inside the game (native/). This development
-- models the part of it that decides what happens in a session: the bridge to the network
-- (native/sampraknet_bridge.cpp), the state machine above it (native/net/netgame.cpp), the server's
-- dialogs (native/gui/dialog.cpp), the chat (native/gui/chat.cpp), text with colour tags
-- (native/gui/colored_text.h), the way of the input (native/gui/imgui_manager.cpp,
-- native/input_guard.cpp), the launcher that starts it (launcher/inject.h), and its hold on the game:
-- the patches (native/patches.cpp) with the guarded writes below them (native/gta/common.h,
-- native/memory.h), the hooks (native/hooks.cpp, native/d3d.cpp), the start of the game
-- (native/gta/sa_state.h) and the calls into it (native/game/game.h, native/game/scm.h).
--
-- How the parts interact: the game calls CNetGame::Tick once a frame, which calls bridge::Tick.
-- That takes what RakNet has received, packet by packet and RPC by RPC, issues a queued connect,
-- moves the automatic spawn on, and sends the local player's sync. An RPC of the server may show a
-- dialog; while one is up the spawn waits. The dialog is drawn each frame and answered through the
-- bridge. CNetGame reads the bridge's flags to move its own state. The launcher puts the library into
-- the process of the game, the library patches the game and starts it, and hooks its ticks and its
-- Direct3D device once it is ready.
--
-- The files:
--   World, World/Players, World/Wire: the globals of native/sampraknet_bridge.cpp as one record, and
--     what they are made of. What is outside the repository or vendored (BitStream's reads, the
--     string decompressor, the code pages of Windows, arithmetic on floats, random draws, the table of
--     auth keys, the engine's answers, the content of uninitialised locals) is the record Platform. Calls of RakNet, of the
--     engine and lines with the server's text are lists that the handlers extend.
--   Bridge/Read, Bridge/Call: BitStream::Read into a variable, and the stream that a handler opens.
--   Bridge/Join, Players, Local, Scenery, Sync: the handlers, Packet_PlayerSync as player_sync,
--     ScrSetPlayerPos as set_player_pos and so on; Bridge/Gpci: gen_gpci.
--   Bridge/Dispatch: UpdateNetwork as update_network, and the table of RegisterRPCs as on_rpc.
--   Bridge/Senders: what is sent, with Bridge/Senders/Notices, the notifications and the sync of
--     spectators. Encoding: native/util/encoding.h, over the code pages of Windows. Bridge/Session: namespace opensamp::bridge, Connect as
--     request_connect, Disconnect as end_session, Tick as tick.
--   Bridge/Reads, Bridge/Control, Bridge/Session/Body: what the handlers leave alone;
--     Bridge/Bounds, with Rules, Locals, Scenes and Network: their writes into the player table.
--   Bridge/Session/Dial, Spawn with Spawn/Ticks and Spawn/Course, Stages, Bridge/Gpci/Value, Hex, Bridge/Sync/Nibble:
--     the theorems on them.
--   Dialog: native/gui/dialog.cpp, with Dialog/Safety and Dialog/Lines.
--   Chat: a typed line in native/gui/chat.cpp, with Chat/Words and Chat/Connect. Chat/Window: its
--     queues and a frame of it, with Shown and History.
--   NetGame: native/net/netgame.cpp, with NetGame/Transition, Invariant, History
--     and Timeout.
--   Gui/Color: native/gui/colored_text.h; Gui/Color/Glyphs: what the tags mean; Tags, Looks, Line,
--     Lines, Text: the proof that the drawing says it.
--   Launcher: launcher/inject.h, with Launcher/Calls, the calls of Windows and their log; Resources,
--     Harmless, Rules, Balance, Release: what is held; Ending, Clock, Waiting: how it ends.
--   Gui/Input: HookWndProc of native/gui/imgui_manager.cpp, native/input_guard.cpp and SetActive of
--     native/gui/chat.hpp, with Gui/Input/Silence.
--   Engine/Memory: native/gta/common.h and native/memory.h, with Engine/Memory/Protection and Content.
--   Engine/Patches: native/patches.cpp as tables of writes (Tables, Relocation, Legacy), with Apart,
--     Order and Limit.
--   Engine/Boot: the start of the game in native/hooks.cpp, with Engine/Boot/Once. Engine/Start: the
--     writes of native/gta/sa_state.h that leave the frontend, with Engine/Start/Kick.
--   Engine/Hooks: GameReady_Install of native/hooks.cpp and the hooks of native/input_guard.cpp, over
--     any answers of MinHook, with Engine/Hooks/Installed.
--   Engine/Device: hkReset, hkPresent and HookThread of native/d3d.cpp, over histories in which others
--     hook the device too, with Linked, Called and Answered.
--   Engine/Script: native/game/scm.h, with Command and Handed: the command that the
--     interpreter finds in the buffer.
--   Engine/Game: native/game/game.h over the bytes of the game and any answers of its routines; in
--     Streaming models, places and the interior, in Skin the change of the player's model and the
--     rebuild that it asks for. Polling, Swap, Scene and Rebuild: the theorems on them.
--   Examples: a concrete platform and world, and each theorem at a concrete input.
--
-- How it is modelled: a handler is an action over the world and the stream that it reads; a failed
-- read leaves its target as it was, and an uninitialised local holds what the platform says. Numbers
-- are natural, with the wrap-around of a machine word written out; a float is its bit pattern. Each
-- reading of the clock is an input of its own. A write outside the player table or a name buffer is
-- recorded in the flag `overrun` and not carried out. The loop of UpdateScoresPingsIPs never ends for
-- 65536 entries or more; that is recorded in the flag `hung`, and what is said of the calls and ticks that
-- follow is said of runs in which it has not been set. The loops of the bridge run over what was
-- received, or over a count read before. The loops of colored_text.h have a bound on their rounds, the
-- length of the text, which is shown to be enough; the loop of the launcher ends by the clock, and
-- 15001 rounds are shown to be enough for its 15000 ms. EnsureModelLoaded asks 200 times, as it does in
-- the source. A call of a routine of the game, of Windows or of Direct3D is written down in order with
-- its arguments; what it answers is a parameter.
--
-- Not modelled: handlers that only log numbers of a packet; ScrCreate3DTextLabel, whose line is cut
-- or refused by the formatting of C; the lines of the log that carry no text of the server, which
-- the chat window shows too; the passenger and the trailer packet, which keep nothing; the sync of
-- passengers, whose code is a comment, and the copy of another player's aim, which nothing asks for;
-- the structured exception handler around the packets, so a fault inside one is not followed;
-- drawing beyond the pieces of coloured text and the lines of the chat; the start and the end of
-- ImGui; the wait of native/d3d.cpp for the first device and its window; in game/game.h the layouts
-- beyond the offsets in use, the rotation of a vehicle as floats, and methods of a ped that only
-- pass their arguments on; the projection in gta/common.h; the crash logs of native/diag.cpp, which
-- are calls of Windows. What Windows answers is a parameter of the launcher and of the guarded
-- writes, with its documented behaviour as hypotheses.
pub mod Prelude
pub mod Encoding
pub mod Dialog
pub mod World
pub mod Bridge
pub mod NetGame
pub mod Chat
pub mod Gui
pub mod Engine
pub mod Launcher
pub mod Examples
