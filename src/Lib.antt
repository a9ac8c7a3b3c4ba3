-- ===== src/Lib.antt =====
-- The native code of the device tree for the Samsung codina: the renderers of its recovery, and
-- the shims that let vendor libraries of an older Android run.
--
-- Recovery renderer: recovery/graphics.cpp is the module Minui. Its drawing functions work on a
-- surface in memory, Minui on the model of memory in Memory; Minui.Display is the start-up, which
-- chooses one of three display backends and loads a font, whose compiled-in form Rle decodes.
-- Minui.Drawing states the invariant of the surface, Minui.Draws what a drawing function makes of
-- it, and Fill, Mask, Text, Clear, Blit and Visible the drawing functions one by one.
-- Minui.Commands is about drawing functions called in a row, and Minui.Session about whole
-- sessions: gr_init, and frames with a flip behind each (Session.Running is about one frame).
-- recovery/twrp-graphics.c, the renderer of the TWRP recovery, and configs/recovery/graphics.c,
-- that of the ClockworkMod recovery, draw by calls of the pixelflinger library, which Pixelflinger
-- lists; their drawing functions return the calls that they make, in the 32-bit arithmetic of
-- Word. Cwm models the drawing functions of the ClockworkMod recovery (Cwm.Text is about its
-- text). Those of TWRP are Twrp, the text in bitmap fonts (Twrp.Measure is about the functions
-- that measure, Twrp.Draw about those that draw); Twrp.Font, the fonts, compiled in or from a file
-- (Font.Unpack and Font.Pack are about the packed pixels, Font.Load about files of any content,
-- Font.RoundTrip about those of a font, Font.Compiled about gr_init_font); Twrp.Shapes, clipping,
-- rectangles, lines, blits and scaled text (Shapes.Placement is about where that stands);
-- Twrp.Circle, gr_render_circle (Circle.Disc is about the picture); and Twrp.Surfaces, the
-- surfaces and fonts as blocks of the heap (Surfaces.Lifetime is about a surface from its
-- allocation to its release). SameText compares the text of the two, and the fonts that they take
-- from one compiled-in font. Framebuffer models the framebuffer device, from gr_init to gr_exit,
-- which the two files have in common; Framebuffer.State has the state, and the record Build for
-- the places in which they differ, which Twrp.Screen and Cwm.Screen fill. Framebuffer.Descriptors
-- is about the error paths of opening the device, Pages about the pages behind its opening, Flip
-- about double buffering, Rounds about the two rounds of gr_init, Frames and Reach about whole
-- sessions, and Refused and Cwm.Init about a refused framebuffer. strstr of
-- libshims/libC/strstr.c, for the camera library, is Strstr, its specification Strstr.First. The
-- GPS module of shims/libgps-shim (gps.c, gps.h) is GpsShim: its function pointers and the order
-- of calls in GpsShim.Protocol, the location structure in GpsShim.Location, and a client that
-- makes any calls, in any order, in GpsShim.Calls. libshims/libGui/libshim_gps.c, which stands
-- between the GPS library and Android M, is Interposer; Interposer.Sessions is about any client
-- between loading and unloading. recovery/recovery_keys.c, and configs/recovery/recovery_keys.c,
-- which is the same, are Keys. Of configs/ril/SamsungU8500RIL.java, which the framework's build
-- takes, Ril models the change of the preferred network type and the handler behind it: Ril.Steps
-- has what each operation leaves of a handler, Ril.Switch is about calls one behind the other,
-- Ril.Overlap about two at a time. Ril.SimStatus models the requests for the status of the SIM
-- card that wait for the radio. Ril.Parcel is the parcel that the modem's messages come in.
-- Ril.Solicited is processSolicited, whose switch is Ril.Requests; Ril.Answers is the decoding
-- functions of the class behind that switch: Ril.CallList, Ril.Signal and Ril.FailCause;
-- Ril.DataCall is the one for a data call, which the superclass calls. Solicited.Once is about how
-- often a request is answered, Answers.Calls about a whole answer, CallList.RoundTrip,
-- FailCause.RoundTrip and DataCall.Layout about what a modem writes, Signal.Range about the ranges
-- of strengths. Ril.Unsolicited is processUnsolicited and the answer for the preferred network
-- type, which use Ril and Ril.SimStatus: Unsolicited.Acts is about one message, Unsolicited.Kept
-- about any sequence of them, Unsolicited.Reconnect about the modem's connection and the radio
-- being on. Ril.Sends is dial and the other requests (Sends.Dialled is about what dial writes).
-- Ril.Session puts the calls of Ril.Switch and the modem's messages together: Session.Tells is
-- about one message, Session.Types about any sequence of events.
--
-- Memory: a block is its size and its bytes. Every access is tested, and one outside the block is
-- a fault, `none` or `fault`; so is a call through a null pointer. A pointer into a surface is an
-- offset into its block. Loops over rows and pixels count down the rounds that are left, so they
-- need no fuel. Recursion through function pointers (GpsShim) takes the depth of the stack, and
-- theorems say how many frames are enough, or that none are. Twrp.Font.unpack takes as fuel one
-- round more than there are pixels, each round being one pixel at least. The blocks of Twrp.Circle
-- are arrays of pixels instead of bytes.
--
-- Integers: coordinates of Minui are exact integers, since an overflow of a signed int is
-- undefined in C; bytes, and the conversion of an int to size_t, wrap as in C. Widths, heights,
-- strides and overscan offsets are natural numbers. An int of the RIL class is its 32-bit pattern.
--
-- Parameters: what the kernel answers (Framebuffer.Kernel), the display backends with what their
-- objects hold, the resource loader, the compiled-in font and the font files, the vendor's GPS
-- library, the TrueType functions gr_ttf_*, what Android answers the RIL class, the parcel and the
-- decoding functions of its superclass, and the bytes of a block that malloc returns.
--
-- Not modelled: log output; gr_test of graphics.cpp, which is compiled out; the calls that set
-- pixelflinger's state up; VectorImpl.cpp and SharedBuffer.cpp in libshims (a copy of Android's
-- libutils); the methods of the RIL class that only log; interface headers, configuration,
-- overlays and patches; of twrp-graphics.c the pixel formats of 32 bits, which the device's build
-- does not choose; a malloc that fails where its result is not tested, as in get_memory_surface;
-- and what the superclass of the RIL class does with a message that is handed on to it, which is
-- taken to leave the modelled fields as they are.
pub mod Base
pub mod Memory
pub mod Rle
pub mod Minui
pub mod Ril
pub mod SameText
pub mod Strstr
pub mod GpsShim
pub mod Word
pub mod Pixelflinger
pub mod Twrp
pub mod Cwm
pub mod Keys
pub mod Interposer
pub mod Framebuffer
mod Tests
