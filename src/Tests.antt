-- ===== src/Tests.antt =====
-- Runs of the models on small inputs, and the theorems at such inputs.
mod Renderer
mod Startup
mod Shims
mod Twrp
mod Screen
mod Reach
mod Ril
mod Parcel
mod Modem
mod Cwm
mod Fonts
mod Shapes
mod Session
